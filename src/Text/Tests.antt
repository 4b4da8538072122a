-- ===== src/Text/Tests.antt =====
-- A line of three fields, the middle one empty.
use dxfcxx_event_test.Base.{◌≡◌, All}
use dxfcxx_event_test.Text.{Bytes, codes}
use dxfcxx_event_test.Text.Find.{Lacks}
use dxfcxx_event_test.Text.Split.{split, join, join-split}

abbrev line : Bytes
line = codes "q||feed"

join-split_example : (join b'|' (split b'|' line) ≡ line) × All (Lacks b'|') (split b'|' line)
join-split_example = join-split b'|' line
