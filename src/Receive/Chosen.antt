-- ===== src/Receive/Chosen.antt =====
-- A selective receive of core/src/receive.rs keeps to its selection, from the request to the disk.
use dropwire.Prelude.{
  ℕ, ◌+◌, ◌%◌, ◌^◌, ◌≡◌, ◌⊎◌, inl, inr, refl, true, some, List, [], ◌∷◌, map, contains, All, Text,
  arith, nat_eq, nat_beq_iff,
}
use dropwire.Progress.{TransferId}
use dropwire.Receive.Every.{spawn_receive-Every}
use dropwire.Receive.{Effect, asked, exported, Remote, request_of, spawn_receive}

-- A child that is the metadata or one of the chosen files.
abbrev pub IsAsked : List ℕ → ℕ → Type 0
IsAsked idx c = (c ≡ 0) ⊎ ((i : ℕ) × (contains idx i ≡ true) × (c ≡ (i + 1) % 2 ^ 64))

-- What reaches for no file but the chosen ones.
abbrev pub IsWithin : List ℕ → Effect → Type 0
IsWithin idx (asked q) = All (IsAsked idx) q.children
IsWithin idx (exported i target) = contains idx i ≡ true
IsWithin idx _ = Unit {0}

IsAsked-rest :
    (idx js : List ℕ)
    → ((i : ℕ) → contains js i ≡ true → contains idx i ≡ true)
    → All (IsAsked idx) (map (λ i. (i + 1) % 2 ^ 64) js)
IsAsked-rest idx [] h = tt
IsAsked-rest idx (j ∷ js) h = (
  inr (j, h j (ground (arith, nat_beq_iff j j)), refl),
  IsAsked-rest idx js (λ i k. h i (ground (arith, k))),
)

module _ (id : TransferId) (dest : Text) (idx : List ℕ) (r : Remote) where
  -- Apart from its request for sizes, which asks for the last chunk of every child, a receive of
  -- chosen files reaches for no other, whatever the sender, the store and the disk do: its request for
  -- content asks for the metadata and for children of chosen files only, and no file is written that
  -- was not chosen.
  pub spawn_receive-IsWithin : All (IsWithin idx) (spawn_receive id dest (some idx) r)
  unfolding request_of
  spawn_receive-IsWithin =
      spawn_receive-Every id dest (some idx) r (IsWithin idx) (λ p. tt) (λ st t. tt)
        (inl refl, IsAsked-rest idx idx (λ i h. h)) (λ i name h. h) (λ e. tt) (λ k. tt)
