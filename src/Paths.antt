-- ===== src/Paths.antt =====
-- The path of a received file: `sanitize_rel` of core/src/receive.rs, over `std::path` as it works
-- on Linux and macOS: `/` is the only separator, and no path has a drive prefix, so that
-- `Component::Prefix` does not occur. Windows is left out; there a name can bring a drive prefix in.
pub mod Joined
pub mod Segments
pub mod Sanitized
pub mod Destination
pub mod Plain
mod Tests
use dropwire.Prelude.{
  ℕ, Bool, true, false, not, ◌&&◌, List, [], ◌∷◌, ◌++◌, map, reverse, if◌then◌else◌, ◌==◌, nat_eq,
  text_eq, Text, code_points,
}

-- The pieces between the slashes, the empty ones among them.
extend_first : ℕ → List Text → List Text
extend_first c [] = (c ∷ []) ∷ []
extend_first c (s ∷ ss) = (c ∷ s) ∷ ss

pub split : Text → List Text
unfolding extend_first
split [] = [] ∷ []
split (c ∷ cs) = if c == b'/' then [] ∷ split cs else extend_first c (split cs)

-- `std::path::Component`, less `Prefix`, which Linux and macOS do not have.
pub data Component : Type 0 where
  root_dir cur_dir parent_dir : Component
  normal : Text → Component

-- Empty pieces and `.` are skipped.
component : Text → List Component
component s =
    if s == []
    then []
    else if s == code_points "."
    then []
    else if s == code_points ".."
    then parent_dir ∷ []
    else normal s ∷ []

-- A `.` at the start of a relative path is kept.
first_component : Text → List Component
unfolding component
first_component s = if s == code_points "." then cur_dir ∷ [] else component s

pub components_from : List Text → List Component
unfolding component
components_from [] = []
components_from (s ∷ ss) = component s ++ components_from ss

relative_from : List Text → List Component
unfolding first_component components_from
relative_from [] = []
relative_from (s ∷ ss) = first_component s ++ components_from ss

-- `Path::components`.
pub components : Text → List Component
unfolding relative_from
components [] = []
components (c ∷ cs) =
    if c == b'/' then root_dir ∷ components_from (split cs) else relative_from (split (c ∷ cs))

-- `PathBuf::push` of a name on names, where no name has a drive prefix.
pub push : Text → Text → Text
push [] c = c
push (o ∷ out) c = (o ∷ out) ++ (b'/' ∷ c)

unfoldable pub ends_with_slash : Text → Bool
ends_with_slash [] = false
ends_with_slash (c ∷ []) = c == b'/'
ends_with_slash (c ∷ d ∷ cs) = ends_with_slash (d ∷ cs)

-- `Path::join` of a relative path.
unfoldable pub join_path : Text → Text → Text
unfolding ends_with_slash
join_path [] rel = rel
join_path (c ∷ dest) rel =
    if ends_with_slash (c ∷ dest) then (c ∷ dest) ++ rel else (c ∷ dest) ++ (b'/' ∷ rel)

-- `name.replace('\\', "/")`.
pub forward_slashes : Text → Text
forward_slashes = map (λ c. if c == 92 then b'/' else c)

-- The loop of `sanitize_rel`.
keep_normal : Text → List Component → Text
unfolding push
keep_normal out [] = out
keep_normal out (normal c ∷ cs) = keep_normal (push out c) cs
keep_normal out (_ ∷ cs) = keep_normal out cs

or_file : Text → Text
or_file [] = code_points "file"
or_file (c ∷ cs) = c ∷ cs

pub sanitize_rel : Text → Text
unfolding keep_normal or_file
sanitize_rel name = or_file (keep_normal [] (components (forward_slashes name)))

-- Where `run_receive` exports the file `name` of a collection.
pub export_target : Text → Text → Text
export_target dest name = join_path dest (sanitize_rel name)

-- `Path::parent` of a path that ends in a file name, on the reversed path.
root_or : Text → Text
root_or [] = code_points "/"
root_or (c ∷ cs) = reverse (c ∷ cs)

drop_name : Text → Text
unfolding root_or
drop_name [] = []
drop_name (c ∷ cs) = if c == b'/' then root_or cs else drop_name cs

pub parent : Text → Text
unfolding drop_name
parent path = drop_name (reverse path)
