-- ===== src/Preview/Totals.antt =====
-- The totals of core/src/receive.rs: what the progress bar counts up to, against what the preview
-- showed before.
use dropwire.Prelude.{
  ℕ, suc, zero, ◌+◌, ◌%◌, ◌^◌, ◌<◌, ◌≡◌, refl, Option, none, some, List, [], ◌∷◌, map, Text, sum,
  get_elem?, length, All, arith, ap, subst, ◌∙◌,
}
use dropwire.Progress.{Route, FilePreview}
use dropwire.Preview.{sum_u64, chosen_sizes, total_of, unwrap_or_zero, previews_from, preview}

-- The size that the preview shows for a file.
pub shown_size : List FilePreview → ℕ → ℕ
shown_size files i = elim (get_elem? files i) [ none ↦ 0 | some f ↦ f.size ]

pub size_at :
    (sizes : List ℕ) (i j : ℕ)
    → i ≡ j
    → unwrap_or_zero (get_elem? sizes i) ≡ unwrap_or_zero (get_elem? sizes j)
size_at sizes i j e = ap (λ k. unwrap_or_zero (get_elem? sizes k)) e

pub shown_from :
    (k : ℕ) (sizes : List ℕ) (names : List Text) (i : ℕ)
    → i < length names
    → shown_size (previews_from k sizes names) i ≡ unwrap_or_zero (get_elem? sizes (k + i + 1))
unfolding shown_size previews_from
shown_from k sizes [] i h = absurd (omega arith)
shown_from k sizes (name ∷ names) zero h = size_at sizes (k + 1) (k + 0 + 1) (omega arith)
shown_from k sizes (name ∷ names) (suc i) h =
    unfold shown_size in
    (shown_from (suc k) sizes names i (omega arith))
    ∙ size_at sizes (suc k + i + 1) (k + suc i + 1) (omega arith)

add_size :
    (n : Option ℕ) (ns : List ℕ)
    → sum (elim n [ none ↦ ns | some m ↦ m ∷ ns ]) ≡ unwrap_or_zero n + sum ns
add_size none ns = omega arith
add_size (some m) ns = refl

chosen_shown :
    (sizes : List ℕ) (names : List Text) (idx : List ℕ)
    → length names < 2 ^ 64
    → All (λ i. i < length names) idx
    → sum (chosen_sizes sizes idx) ≡ sum (map (shown_size (previews_from 0 sizes names)) idx)
unfolding chosen_sizes
chosen_shown sizes names [] small h = refl
chosen_shown sizes names (i ∷ idx) small h =
    add_size (get_elem? sizes ((i + 1) % 2 ^ 64)) (chosen_sizes sizes idx)
    ∙ omega (
      arith,
      size_at sizes ((i + 1) % 2 ^ 64) (0 + i + 1) (omega (arith, small, h.0)),
      shown_from 0 sizes names i h.0,
      chosen_shown sizes names idx small h.1,
    )

-- For a selection of files that the preview lists, the progress total is the sum of the sizes that
-- the preview showed for them, whatever order they are chosen in.
pub total_shown :
    (sizes : List ℕ) (names : List Text) (route : Route) (idx : List ℕ)
    → length names < 2 ^ 64
    → All (λ i. i < length names) idx
    → total_of (some idx) sizes ≡ sum_u64 (map (shown_size (preview sizes names route).files) idx)
unfolding total_of preview
total_shown sizes names route idx small h =
    ap (λ n. n % 2 ^ 64) (chosen_shown sizes names idx small h)

previews_sum :
    (k : ℕ) (sizes ns : List ℕ) (names : List Text)
    → ((j : ℕ) → get_elem? sizes (k + j + 1) ≡ get_elem? ns j)
    → length ns ≡ length names
    → sum (map (λ f. f.size) (previews_from k sizes names)) ≡ sum ns
unfolding previews_from
previews_sum k sizes [] [] h l = refl
previews_sum k sizes [] (name ∷ names) h l = absurd (omega arith)
previews_sum k sizes (n ∷ ns) [] h l = absurd (omega arith)
previews_sum k sizes (n ∷ ns) (name ∷ names) h l =
    let later =
      previews_sum (suc k) sizes ns names
        (λ j.
          subst (λ i. get_elem? sizes i ≡ get_elem? ns j) {x = k + suc j + 1} {y = suc k + j + 1}
            (omega arith) (h (suc j)))
        (omega arith) in
    omega (arith, later, size_at sizes (k + 1) (k + 0 + 1) (omega arith), ap unwrap_or_zero (h 0))

-- Where the sender reports one size for the metadata and one for each file, the progress total of
-- a whole download is the total of the preview and the size of the metadata, added on 64 bits.
pub total_whole :
    (meta : ℕ) (ns : List ℕ) (names : List Text) (route : Route)
    → length ns ≡ length names
    → total_of none (meta ∷ ns) ≡ (meta + (preview (meta ∷ ns) names route).total_bytes) % 2 ^ 64
unfolding total_of preview
total_whole meta ns names route l = omega (
  arith,
  previews_sum 0 (meta ∷ ns) ns names
      (λ j. ap (get_elem? (meta ∷ ns)) {x = 0 + j + 1} {y = suc j} (omega arith)) l,
)
