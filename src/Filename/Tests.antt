-- ===== src/Filename/Tests.antt =====
-- Names of exported files.
use podlog.Base.{◌≡◌, refl, Text, codes, is_space}
use podlog.Filename.{
  is_reserved, spaces_to, skip_separators, collapse_runs, is_trim_char, trim_edges, cut_to,
  separated, sanitize_filename,
}

abbrev same : Text → Text
same t = t

-- White space and separators that follow one another are one separator.
named :
    sanitize_filename same 100 (codes "-") (codes "untitled") (codes " Who? / A  -- B. ")
    ≡ codes "Who-A-B"
unfolding sanitize_filename separated cut_to trim_edges is_trim_char collapse_runs skip_separators
    spaces_to is_reserved is_space
named = refl
