-- ===== src/Planner/Quantization.antt =====
-- `DetectQuantization` and `quantBytesPerParam` of internal/planner/planner.go.
use iold.Base.{
  ℕ, ◌||◌, not, Bool, false, List, [], ◌∷◌, Text, codes, text_eq, is_empty, contains_text, to_lower,
  remove_byte, is_positive, Option, none, some, if◌then◌else◌,
}
use iold.Planner.Float.{round64}
use iold.Hub.{Model, Fields, Quantized}

abbrev pub quant_markers : List Text
quant_markers =
    codes "nvfp4"
    ∷ codes "awq"
    ∷ codes "gptq"
    ∷ codes "fp8"
    ∷ codes "int8"
    ∷ codes "int4"
    ∷ codes "4bit"
    ∷ codes "4-bit"
    ∷ codes "8bit"
    ∷ codes "8-bit"
    ∷ codes "bnb"
    ∷ codes "mxfp4"
    ∷ []

-- The first marker that the text contains.
unfoldable pub marker_in : Text → List Text → Option Text
marker_in h [] = none
marker_in h (m ∷ ms) = let rest = marker_in h ms in if contains_text h m then some m else rest

abbrev or_else : Option Text → Option Text → Option Text
or_else none b = b
or_else (some a) b = some a

unfoldable pub marker_of : List Text → Option Text
unfolding marker_in
marker_of [] = none
marker_of (h ∷ hs) = or_else (marker_in (to_lower h) quant_markers) (marker_of hs)

-- `strings.TrimRight(s, "")` leaves its text as it is.
abbrev marker_name : Option Text → Text
marker_name none = []
marker_name (some m) = remove_byte b'-' m

abbrev pub method_of : Option Quantized → Text
method_of none = []
method_of (some q) = q.quant_method

unfoldable pub detect_quantization : Model → Fields → Text
unfolding marker_of
detect_quantization model cfg =
    if not (is_empty (method_of cfg.quantization_config))
    then to_lower (method_of cfg.quantization_config)
    else marker_name (marker_of (to_lower model.id ∷ model.tags))

abbrev pub one_of : Text → List Text → Bool
one_of s [] = false
one_of s (t ∷ ts) = text_eq s t || one_of s ts

abbrev bits_of : Option Quantized → ℕ
bits_of none = 0
bits_of (some q) = q.bits

-- The bytes for a quantized weight in eighths; 0 when they are not known.
unfoldable pub quant_eighths : Text → Fields → ℕ
quant_eighths quant cfg =
    if is_empty quant
    then 0
    else if is_positive (bits_of cfg.quantization_config)
    then round64 (bits_of cfg.quantization_config)
    else if one_of quant (
        codes "awq"
        ∷ codes "gptq"
        ∷ codes "nvfp4"
        ∷ codes "int4"
        ∷ codes "4bit"
        ∷ codes "nf4"
        ∷ codes "bnb"
        ∷ codes "bitsandbytes"
        ∷ codes "mxfp4"
        ∷ [])
    then 4
    else if one_of quant (codes "fp8" ∷ codes "int8" ∷ codes "8bit" ∷ [])
    then 8
    else 0
