-- ===== src/Parser/OscContent/Tests.antt =====
-- Contents of OSC sequences, and the theorem at one.
use tmuxcc_driver.Prelude.{◌≡◌, refl, none, some}
use tmuxcc_driver.Prelude.Keyed.{codes, matches_list}
use tmuxcc_driver.Prelude.Int.{negsuc}
use tmuxcc_driver.Prelude.Decimal.{to_decimal}
use tmuxcc_driver.Parser.OscContent.{parse_osc_content, cut_at_semi}
use tmuxcc_driver.Parser.OscContent.Forms.{
  finished, content_of, detection_of, parse_osc_content-content_of,
}

parse_osc_content-content_of_example :
    parse_osc_content (codes "633;D;-1") ≡ some (detection_of (finished (some (negsuc 0))))
unfolding content_of to_decimal
parse_osc_content-content_of_example = parse_osc_content-content_of (finished (some (negsuc 0))) tt

-- A title is not reported.
title_is_silent : parse_osc_content (codes "0;vim") ≡ none
unfolding parse_osc_content cut_at_semi matches_list
title_is_silent = refl
