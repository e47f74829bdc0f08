-- ===== src/Util/Examples.antt =====
-- The last line of a file at a concrete input.
use remote_monitoring_tool.Prelude.{newline, ◌≡◌, refl, some, [], ◌∷◌, ◌++◌, codes, arith, inr}
use remote_monitoring_tool.Util.{get_last_line_of_file}
use remote_monitoring_tool.Util.LastLine.{get_last_line-line}

get_last_line-line_example :
    get_last_line_of_file (some (codes "1|a\n" ++ codes "2|b" ++ newline ∷ [])) ≡ codes "2|b"
get_last_line-line_example =
    get_last_line-line (codes "1|a\n") (codes "2|b") (λ e. cc) (omega arith)
      (inr (codes "1|a", refl))
