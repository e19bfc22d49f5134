-- ===== src/Tests/Getsubids.antt =====
-- The output of getsubids at concrete texts.
use shbox.Prelude.{◌≡◌, refl, [], ◌∷◌, map, arith}
use shbox.Prelude.Ascii.{is_digit}
use shbox.Prelude.Bytes.{codes}
use shbox.Subid.Delegation.{new}
use shbox.Subid.Delegation.Getsubids
use shbox.Subid.Delegation.Getsubids.{
  parse_getsubids_output, ok, err, malformed_line, is_whitespace,
}
use shbox.Subid.Delegation.Output.{Line, IsPrinted, print, parse-print}

abbrev line : Line
line = record {
  place = 0;
  index = codes "0";
  name = codes "me";
  start = codes "100000";
  count = codes "65536";
  range = record { start = 100000; count = 65536 };
}

line-IsPrinted : IsPrinted line
unfolding is_digit is_whitespace new
line-IsPrinted = record {
  place_lt = omega arith;
  start_lt = omega arith;
  count_lt = omega arith;
  index_digits = (λ e. cc, (refl, tt), refl);
  name_nonempty = λ e. cc;
  name_plain = (refl, (refl, tt));
  start_digits = (λ e. cc, (refl, (refl, (refl, (refl, (refl, (refl, tt)))))), refl);
  count_digits = (λ e. cc, (refl, (refl, (refl, (refl, (refl, tt))))), refl);
  is_range = refl;
}

parse-print_example :
    parse_getsubids_output (print (line ∷ [])) ≡ ok (map (λ (l : Line). l.range) (line ∷ []))
parse-print_example = parse-print (line ∷ []) (line-IsPrinted, tt)

missing_count : parse_getsubids_output (codes "0: me 5") ≡ err (malformed_line (codes "0: me 5"))
unfolding parse_getsubids_output Getsubids.lines Getsubids.parse_lines Getsubids.trim_end
    Getsubids.parse_line Getsubids.split_once Getsubids.trim_start Getsubids.parse_number
    Getsubids.digits Getsubids.parts Getsubids.nonempty is_digit is_whitespace
missing_count = refl
