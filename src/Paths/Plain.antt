-- ===== src/Paths/Plain.antt =====
-- Paths made of plain names only, as the sender's are: nothing of them is lost.
use dropwire.Prelude.{
  ◌≡◌, refl, ap, false, List, [], ◌∷◌, ◌++◌, map, arith, ◌==◌, nat_eq, text_eq, Text, retain, any,
  All, ◌∙◌,
}
use dropwire.Paths.{
  root_dir, normal, split, components, components_from, forward_slashes, sanitize_rel,
}
use dropwire.Paths.Segments.{is_name, IsName, join, split-join}
use dropwire.Paths.Sanitized.{safe_names, names_or_file, sanitize_rel_lem, components_from_names}

abbrev pub NoBackslash : Text → Type 0
NoBackslash s = any (λ c. c == 92) s ≡ false

pub forward_slashes_plain : (s : Text) → NoBackslash s → forward_slashes s ≡ s
unfolding forward_slashes
forward_slashes_plain [] p = refl
forward_slashes_plain (c ∷ s) p = ground (arith, forward_slashes_plain s)

NoBackslash-append : (s t : Text) → NoBackslash s → NoBackslash t → NoBackslash (s ++ (b'/' ∷ t))
NoBackslash-append [] t p q = q
NoBackslash-append (c ∷ s) t p q = ground (arith, NoBackslash-append s t)

pub NoBackslash-join : (ss : List Text) → All NoBackslash ss → NoBackslash (join ss)
unfolding join
NoBackslash-join [] a = refl
NoBackslash-join (s ∷ []) a = a.0
NoBackslash-join (s ∷ t ∷ ss) a =
    NoBackslash-append s (join (t ∷ ss)) a.0 (NoBackslash-join (t ∷ ss) a.1)

retain_names : (ss : List Text) → All IsName ss → retain is_name ss ≡ ss
retain_names [] a = refl
retain_names (s ∷ ss) a = rw (a.0.named) (ap (◌∷◌ s) (retain_names ss a.1))

-- A name of plain pieces comes out of the sanitizing as it went in.
pub sanitize_rel-join :
    (s : Text) (ss : List Text)
    → All IsName (s ∷ ss)
    → All NoBackslash (s ∷ ss)
    → sanitize_rel (join (s ∷ ss)) ≡ join (s ∷ ss)
unfolding safe_names names_or_file
sanitize_rel-join s ss a b =
    sanitize_rel_lem (join (s ∷ ss))
    ∙ ap (λ t. join (names_or_file (retain is_name (split t))))
        (forward_slashes_plain (join (s ∷ ss)) (NoBackslash-join (s ∷ ss) b))
    ∙ ap (λ ps. join (names_or_file (retain is_name ps))) (split-join s ss a)
    ∙ ap (λ ps. join (names_or_file ps)) (retain_names (s ∷ ss) a)

pub components_absolute :
    (s : Text) (ss : List Text)
    → All IsName (s ∷ ss)
    → components (b'/' ∷ join (s ∷ ss)) ≡ root_dir ∷ map normal (s ∷ ss)
unfolding components
components_absolute s ss a =
    ap (λ ps. root_dir ∷ components_from ps) (split-join s ss a)
    ∙ ap (◌∷◌ root_dir) (components_from_names (s ∷ ss) a)
