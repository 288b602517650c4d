-- ===== src/Planner.antt =====
-- The package internal/planner: whether a model fits the GPU. The code computes weights and budgets as
-- float64, and so does the model: weights in eighths of a byte, budgets in powers of two.
pub mod Float
pub mod Quantization
pub mod Estimate
pub mod Suggest
