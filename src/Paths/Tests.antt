-- ===== src/Paths/Tests.antt =====
-- Names of received files (core/src/receive.rs) at concrete inputs.
use dropwire.Prelude.{◌≡◌, refl, ◌++◌, map, code_points, text_beq}
use dropwire.Paths.{
  normal, components, split, component, sanitize_rel, forward_slashes, export_target,
}
use dropwire.Paths.Sanitized.{safe_names}
use dropwire.Paths.Destination.{export_target_inside}

climbs_out : sanitize_rel (code_points "..\\..//etc/./passwd") ≡ code_points "etc/passwd"
unfolding sanitize_rel components split component forward_slashes text_beq
climbs_out = refl

only_dots : sanitize_rel (code_points "/../..") ≡ code_points "file"
unfolding sanitize_rel components split component forward_slashes text_beq
only_dots = refl

export_target_inside_example :
    components (export_target (code_points "/home/u/Dropwire/") (code_points "../x"))
    ≡ components (code_points "/home/u/Dropwire/") ++ map normal (safe_names (code_points "../x"))
export_target_inside_example =
    (export_target_inside (code_points "/home/u/Dropwire/") (code_points "../x") (λ e. cc)).0
