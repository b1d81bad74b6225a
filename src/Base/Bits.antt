-- ===== src/Base/Bits.antt =====
-- Bitwise operations on native numbers at variables: the equation for the lowest digit, from the
-- definition that the native operation stands for, and the laws that follow at every width.
mod Step
mod Laws
mod Width
mod Fields
pub use Step.*
pub use Laws.*
pub use Width.*
pub use Fields.*
