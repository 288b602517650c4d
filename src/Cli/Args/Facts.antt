-- ===== src/Cli/Args/Facts.antt =====
-- What the parsed arguments say of the command line.
use iold.Base.{
  ◌≡◌, refl, ◌∙◌, sym, subst, ◌⊎◌, inl, inr, Bool, true, false, List, [], ◌∷◌, Memᴰ, Text, codes,
  text_eq, text_eq_iff, is_empty, has_prefix, some, arith, Bool-cases,
}
use iold.Cli.Args.{is_name, DeployArgs, deploy_args, DestroyArgs, destroy_args}

-- A flag that is set was set before, or is among the arguments.
abbrev pub Set : Bool → Bool → Text → List Text → Type 0
Set before after flag args = after ≡ true → (before ≡ true) ⊎ Memᴰ flag args

head_is :
    (arg : Text) (flag : Text) (more : List Text) → text_eq arg flag ≡ true → Memᴰ flag (arg ∷ more)
head_is arg flag more e = Memᴰ.head (sym ((text_eq_iff arg flag).0 e))

later :
    {before after : Bool} {flag arg : Text} {more : List Text}
    → Set before after flag more
    → Set before after flag (arg ∷ more)
later s t = elim (s t) [ inl b ↦ inl b | inr m ↦ inr (Memᴰ.tail m) ]

-- A name is the one that was there before, or an argument that is no flag.
abbrev pub Named : Text → Text → List Text → Type 0
Named before after args =
    (after ≡ before) ⊎ (Memᴰ after args × (has_prefix after (codes "-") ≡ false))

later_name :
    {before after arg : Text} {more : List Text}
    → Named before after more
    → Named before after (arg ∷ more)
later_name (inl e) = inl e
later_name (inr (m, p)) = inr (Memᴰ.tail m, p)

-- The name that was just taken.
taken_name :
    {after : Text} (before arg : Text) (more : List Text)
    → is_name before arg ≡ true
    → Named arg after more
    → Named before after (arg ∷ more)
taken_name before arg more y (inr (m, p)) = inr (Memᴰ.tail m, p)
taken_name before arg more y (inl e) =
    inr (Memᴰ.head e, subst (λ a. has_prefix a (codes "-") ≡ false) (sym e) (ground arith))

record DeployFacts (replace : Bool) (ref : Text) (args : List Text) (a : DeployArgs) : Type 0 where
  flag : Set replace a.replace (codes "--replace") args
  name : Named ref a.ref args
  filled : is_empty a.ref ≡ false

deploy_args_facts :
    (replace : Bool) (ref : Text) (args : List Text) (a : DeployArgs)
    → deploy_args replace ref args ≡ some a
    → DeployFacts replace ref args a
unfolding deploy_args
deploy_args_facts replace ref [] a e = record {
  flag = λ t. inl (ground arith);
  name = inl (ground arith);
  filled = ground arith;
}
deploy_args_facts replace ref (arg ∷ more) a e =
    elim (Bool-cases (text_eq arg (codes "--replace"))) [
      | inl y ↦
          let k = deploy_args_facts true ref more a (rw y at e) in
          record {
            flag = λ t. inr (head_is arg _ more y);
            name = later_name k.name;
            filled = k.filled;
          }
      | inr n ↦ elim (Bool-cases (is_name ref arg)) [
        | inl y ↦
            let k = deploy_args_facts replace arg more a (rw (n, y) at e) in
            record {
              flag = later k.flag;
              name = taken_name ref arg more y k.name;
              filled = k.filled;
            }
        | inr m ↦ absurd (ground arith)
      ]
    ]

record DestroyFacts (all purge : Bool) (id : Text) (args : List Text) (a : DestroyArgs)
    : Type 0 where
  all_flag : Set all a.all (codes "--all") args
  purge_flag : Set purge a.purge (codes "--purge") args
  name : Named id a.id args
  either : a.all ≡ is_empty a.id

destroy_args_facts :
    (all purge : Bool) (id : Text) (args : List Text) (a : DestroyArgs)
    → destroy_args all purge id args ≡ some a
    → DestroyFacts all purge id args a
unfolding destroy_args
destroy_args_facts all purge id [] a e = record {
  all_flag = λ t. inl (ground arith);
  purge_flag = λ t. inl (ground arith);
  name = inl (ground arith);
  either = ground arith;
}
destroy_args_facts all purge id (arg ∷ more) a e = elim (Bool-cases (text_eq arg (codes "--all"))) [
  | inl y ↦
      let k = destroy_args_facts true purge id more a (rw y at e) in
      record {
        all_flag = λ t. inr (head_is arg _ more y);
        purge_flag = later k.purge_flag;
        name = later_name k.name;
        either = k.either;
      }
  | inr n ↦ elim (Bool-cases (text_eq arg (codes "--purge"))) [
    | inl y ↦
        let k = destroy_args_facts all true id more a (rw (n, y) at e) in
        record {
          all_flag = later k.all_flag;
          purge_flag = λ t. inr (head_is arg _ more y);
          name = later_name k.name;
          either = k.either;
        }
    | inr m ↦ elim (Bool-cases (is_name id arg)) [
      | inl y ↦
          let k = destroy_args_facts all purge arg more a (rw (n, m, y) at e) in
          record {
            all_flag = later k.all_flag;
            purge_flag = later k.purge_flag;
            name = taken_name id arg more y k.name;
            either = k.either;
          }
      | inr o ↦ absurd (ground arith)
    ]
  ]
]

given : {flag : Text} {args : List Text} → (false ≡ true) ⊎ Memᴰ flag args → Memᴰ flag args
given (inl b) = absurd (cc)
given (inr m) = m

Named-arg :
    (id : Text) (args : List Text)
    → is_empty id ≡ false
    → Named [] id args
    → Memᴰ id args × (has_prefix id (codes "-") ≡ false)
Named-arg [] args f n = cc
Named-arg (c ∷ id) args f (inl e) = cc
Named-arg (c ∷ id) args f (inr p) = p

-- `deploy` replaces only if --replace is among its arguments, and the model it takes is an argument that is
-- neither empty nor begins with a dash.
pub deploy_args_lem :
    (args : List Text) (a : DeployArgs)
    → deploy_args false [] args ≡ some a
    → (a.replace ≡ true → Memᴰ (codes "--replace") args)
      × Memᴰ a.ref args
      × (is_empty a.ref ≡ false)
      × (has_prefix a.ref (codes "-") ≡ false)
deploy_args_lem args a e =
    let k = deploy_args_facts false [] args a e in
    let (m, p) = Named-arg a.ref args k.filled k.name in (λ t. given (k.flag t), m, k.filled, p)

-- `destroy` destroys every deployment only if --all is among its arguments, and then none is named; otherwise it
-- destroys the one that an argument which is no flag names. It purges only if --purge is among them.
pub destroy_args_lem :
    (args : List Text) (a : DestroyArgs)
    → destroy_args false false [] args ≡ some a
    → (a.all ≡ true → Memᴰ (codes "--all") args × (a.id ≡ []))
      × (a.all ≡ false → Memᴰ a.id args × (has_prefix a.id (codes "-") ≡ false))
      × (a.purge ≡ true → Memᴰ (codes "--purge") args)
destroy_args_lem args a e =
    let k = destroy_args_facts false false [] args a e in
    (
      λ t. (given (k.all_flag t), nothing a.id (sym k.either ∙ t)),
      λ f. Named-arg a.id args (sym k.either ∙ f) k.name,
      λ t. given (k.purge_flag t),
    )
  where
    nothing : (id : Text) → is_empty id ≡ true → id ≡ []
    nothing [] t = refl
    nothing (c ∷ id) t = cc
