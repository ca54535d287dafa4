-- ===== src/Store/Unique.antt =====
-- `unique_request_dir` over any file system.
use bw_fetcher.Base.{
  ℕ, zero, suc, ◌+◌, ◌≡◌, ◌⊎◌, inl, inr, refl, Bool, true, false, ◌&&◌, ◌++◌, if◌then◌else◌,
  Bool-cases, Bytes, codes,
}
use bw_fetcher.Store.{numbered, try_numbered, unique_request_dir}

module _ (exists : Bytes → Bool) (base_name : Bytes) where
  -- Every one of `rounds` numbered names from `n` on exists.
  unfoldable pub all_taken : ℕ → ℕ → Bool
  all_taken zero n = true
  all_taken (suc rounds) n = exists (numbered base_name n) && all_taken rounds (n + 1)

  -- A free candidate, or none from `n` on.
  abbrev IsFree : ℕ → ℕ → Bytes → Type 0
  IsFree rounds n r =
      (exists r ≡ false) ⊎ ((all_taken rounds n ≡ true) × (r ≡ base_name ++ codes "_dup"))

  IsFree-later :
      (rounds n : ℕ) (r : Bytes)
      → exists (numbered base_name n) ≡ true
      → IsFree rounds (n + 1) r
      → IsFree (suc rounds) n r
  unfolding all_taken
  IsFree-later rounds n r t (inl free_name) = inl free_name
  IsFree-later rounds n r t (inr (all, e)) = inr (rw (t, all), e)

  try_numbered-IsFree : (rounds n : ℕ) → IsFree rounds n (try_numbered exists base_name rounds n)
  unfolding try_numbered
  try_numbered-IsFree zero n = inr (unfold all_taken in refl, refl)
  try_numbered-IsFree (suc rounds) n = elim (Bool-cases (exists (numbered base_name n))) [
    | inl taken ↦ rw taken (IsFree-later rounds n _ taken (try_numbered-IsFree rounds (n + 1)))
    | inr open_name ↦ rw open_name (inl open_name)
  ]

  abbrev IsUnique : ℕ → Bytes → Type 0
  IsUnique rounds r =
      (exists r ≡ false)
      ⊎ (exists base_name ≡ true) × (all_taken rounds 2 ≡ true) × (r ≡ base_name ++ codes "_dup")

  IsFree-IsUnique :
      (rounds : ℕ) (r : Bytes) → exists base_name ≡ true → IsFree rounds 2 r → IsUnique rounds r
  IsFree-IsUnique rounds r t (inl free_name) = inl free_name
  IsFree-IsUnique rounds r t (inr (all, e)) = inr (t, all, e)

  chosen-IsUnique :
      (rounds : ℕ) (b : Bool)
      → exists base_name ≡ b
      → IsUnique rounds (if b then try_numbered exists base_name rounds 2 else base_name)
  chosen-IsUnique rounds true e = IsFree-IsUnique rounds _ e (try_numbered-IsFree rounds 2)
  chosen-IsUnique rounds false e = inl e

  -- The name is free on disk; otherwise the base name and its 998 numbered forms all exist, and the
  -- name is the one with "_dup", which is not looked up.
  pub unique_request_dir_lem :
      (exists (unique_request_dir exists base_name) ≡ false)
      ⊎ (exists base_name ≡ true)
        × (all_taken 998 2 ≡ true)
        × (unique_request_dir exists base_name ≡ base_name ++ codes "_dup")
  unfolding unique_request_dir
  unique_request_dir_lem = chosen-IsUnique 998 (exists base_name) refl
