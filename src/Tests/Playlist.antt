-- ===== src/Tests/Playlist.antt =====
-- Runs of the playlist parser.
use livepeer_modules_transco.Prelude.{
  ◌≡◌, refl, false, List, [], ◌∷◌, any, all, All, Bytes, codes, str_eq, is_empty, has_prefix, ok,
}
use livepeer_modules_transco.Prelude.{read_digits}
use livepeer_modules_transco.Contract.Request.{contains_any}
use livepeer_modules_transco.Session.Output.{FinalizedSegment}
use livepeer_modules_transco.Playlist.Parse.{
  parse_segments, scan_lines, scan_line, scan_duration, scan_uri, add_segment, find_segment,
  parse_microseconds, parse_uint, parse_fraction, cut, has_outer_space, zero_digits, trim_return,
  trim_mark,
}
use livepeer_modules_transco.Playlist.Segments.{
  parse_segments-IsMeterable, IsMeterable, HaveDistinctUris,
}

abbrev test_lines : List Bytes
test_lines =
    codes "#EXTM3U"
    ∷ codes "#EXTINF:2.5,"
    ∷ codes "s1.ts"
    ∷ codes "#EXTINF:1.500000,"
    ∷ codes "s2.ts"
    ∷ []

abbrev parsed_segments : List FinalizedSegment
parsed_segments =
    record { uri = codes "s1.ts"; duration_microseconds = 2500000 }
    ∷ record { uri = codes "s2.ts"; duration_microseconds = 1500000 }
    ∷ []

parse_segments-IsMeterable_example :
    All IsMeterable parsed_segments × HaveDistinctUris parsed_segments
unfolding parse_segments scan_lines scan_line scan_duration scan_uri add_segment find_segment
    parse_microseconds parse_uint parse_fraction cut has_outer_space zero_digits trim_return
    trim_mark contains_any any all str_eq is_empty has_prefix read_digits
parse_segments-IsMeterable_example =
    parse_segments-IsMeterable test_lines false parsed_segments refl

-- A duration of 18446744073710 seconds is taken for 448384 microseconds.
huge_duration : parse_microseconds (codes "18446744073710") ≡ ok 448384
unfolding parse_microseconds parse_uint parse_fraction cut has_outer_space is_empty has_prefix all
    read_digits
huge_duration = refl
