-- ===== src/Memory/Regions.antt =====
-- Copies and fills of a region put together from parts.
use jos.Prelude.{ℕ, ◌+◌, ◌≤◌, ◌≡◌, ◌⊎◌, arith, fun_ext}
use jos.Memory.{Mem, store, copied, filled}

-- Copying the first `w` bytes and then the next `k` is one copy, if the source is not overwritten.
pub copied-copied_up :
    (m : Mem) (d s w k : ℕ)
    → (d ≤ s) ⊎ (s + (w + k) ≤ d)
    → copied (copied m d s w) (d + w) (s + w) k ≡ copied m d s (w + k)
unfolding copied
copied-copied_up m d s w k h = fun_ext λ a. ground arith

-- Copying the last `w` bytes and then the `k` before them is one copy, if the source lies below.
pub copied-copied_down :
    (m : Mem) (d s w k : ℕ)
    → s ≤ d
    → copied (copied m (d + k) (s + k) w) d s k ≡ copied m d s (k + w)
unfolding copied
copied-copied_down m d s w k h = fun_ext λ a. ground arith

pub copied_one : (m : Mem) (d s : ℕ) → store m d (m s) ≡ copied m d s 1
unfolding copied store
copied_one m d s = fun_ext λ a. ground arith

pub copied_none : (m : Mem) (d s : ℕ) → m ≡ copied m d s 0
unfolding copied
copied_none m d s = fun_ext λ a. ground arith

pub filled-filled :
    (m : Mem) (p v w k : ℕ) → filled (filled m p v w) (p + w) v k ≡ filled m p v (w + k)
unfolding filled
filled-filled m p v w k = fun_ext λ a. ground arith

pub filled_one : (m : Mem) (p v : ℕ) → store m p v ≡ filled m p v 1
unfolding filled store
filled_one m p v = fun_ext λ a. ground arith

pub filled_none : (m : Mem) (p v : ℕ) → m ≡ filled m p v 0
unfolding filled
filled_none m p v = fun_ext λ a. ground arith
