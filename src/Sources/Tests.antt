-- ===== src/Sources/Tests.antt =====
-- The news log report on small logs.
use mathlib.Core.List.{cons-ne-nil}
use nntp_tools.Prelude.{ℕ, ◌+◌, ◌%◌, ◌^◌, ◌≡◌, refl, List, [], ◌∷◌, none, some, Bytes, codes, arith}
use nntp_tools.Prelude.Int.{pos}
use nntp_tools.Dates.Fields.{IsNumber, AreDigits}
use nntp_tools.Sources.{Details, parse_fields}
use nntp_tools.Sources.Line.{
  Written, IsLine, IsWord, NoSpace, Fits, IsExtra, render, fields_of, parse_fields-render,
}
use nntp_tools.Sources.Maps.{State, process_details, open_map}
use nntp_tools.Sources.Entries.{articles_in, AreMaps}
use nntp_tools.Sources.Counts.{IsNormal, nil-Fit, counted, tally, process_details-counts}
use nntp_tools.Sources.Pages.{IsPlain, fix_pages, written, written-fixed}

abbrev accepted_line : Written
accepted_line = record {
  mon = 10;
  mday = codes "25";
  hour = codes "18";
  min = codes "50";
  sec = codes "48";
  msec = codes "123";
  code = b'+';
  peer = codes "peer";
  message = codes "<a@b>";
  size = codes "42";
  extra = codes "x y";
}

accepted_line-IsLine : IsLine accepted_line
unfolding IsNumber AreDigits IsWord NoSpace IsExtra Fits nntp_tools.Csv.decimal_value
accepted_line-IsLine = record {
  mon_valid = omega arith;
  mday_number = (cons-ne-nil _ _, (refl, (refl, tt)));
  mday_fits = omega arith;
  hour_number = (cons-ne-nil _ _, (refl, (refl, tt)));
  hour_fits = omega arith;
  min_number = (cons-ne-nil _ _, (refl, (refl, tt)));
  min_fits = omega arith;
  sec_number = (cons-ne-nil _ _, (refl, (refl, tt)));
  sec_fits = omega arith;
  msec_number = (cons-ne-nil _ _, (refl, (refl, (refl, tt))));
  msec_fits = omega arith;
  code_valid = refl;
  peer_word = (cons-ne-nil _ _, (refl, (refl, (refl, (refl, tt)))));
  message_word = (cons-ne-nil _ _, (refl, (refl, (refl, (refl, (refl, tt))))));
  size_number = (cons-ne-nil _ _, (refl, (refl, tt)));
  size_fits = omega arith;
  extra_valid = refl;
}

parse_fields-render_example :
    parse_fields (codes "Nov 25 18:50:48.123 + peer <a@b> 42 x y") ≡ some (fields_of accepted_line)
unfolding render nntp_tools.Sources.Line.month_name nntp_tools.Sources.Line.tail
    nntp_tools.Sources.Line.sized nntp_tools.Sources.is_accepted
parse_fields-render_example = parse_fields-render accepted_line accepted_line-IsLine

abbrev article : Details
article = record {
  when = record { mday = 25; mon = pos 10; year = 110; hour = 18; min = 50; sec = pos 48 };
  seconds = pos 1000;
  microseconds = 0;
  code = b'+';
  peer = codes "peer";
  message = codes "<a@b>";
  size = 42;
  extra = [];
}

abbrev empty_state : State
empty_state = record { maps = []; latest = (pos 0, 0); counter = 0; timestamp = none; days = [] }

empty_state-AreMaps : AreMaps []
unfolding AreMaps open_map nntp_tools.Text.lookup
empty_state-AreMaps path = refl

process_details-counts_example :
    (t : State) × (process_details (codes ".") (article ∷ article ∷ []) empty_state ≡ some t)
    × ((p : Bytes) (j : ℕ)
        → articles_in t.maps p j
          ≡ (articles_in [] p j
              + tally (codes ".") p j (counted (pos 0, 0) (article ∷ article ∷ [])))
            % 2 ^ 64)
unfolding IsNormal
process_details-counts_example =
    process_details-counts (codes ".") (article ∷ article ∷ []) empty_state
      ((omega arith, omega arith), ((omega arith, omega arith), tt)) empty_state-AreMaps nil-Fit

abbrev two_pages : List (Bytes × List Bytes)
two_pages =
    (codes "a.html", codes "<span class=next></span>\n" ∷ [])
    ∷ (codes "b.html", codes "<p>\n" ∷ [])
    ∷ []

written-fixed_example : written none (fix_pages none two_pages) ≡ []
unfolding IsPlain nntp_tools.Text.has_substring nntp_tools.Sources.Pages.prev_line
    nntp_tools.Text.starts_with nntp_tools.Sources.Pages.next_line
written-fixed_example = written-fixed two_pages ((refl, refl), ((refl, refl), tt))
