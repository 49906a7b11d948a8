-- ===== src/Slippy/Status.antt =====
-- slippy/status.go: the status of a slip, of a step, and of a set of prerequisites. The types are
-- Go strings; `unset` stands for the zero value "", which each method's `default` branch reads.
-- Other texts outside the constants are not represented: the methods treat them as they treat "".
mod Slip
mod Step
pub use Slip.*
pub use Step.*
