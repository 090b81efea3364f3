-- ===== src/Ring/Contents.antt =====
-- The bytes that a ring holds, oldest first.
use shiori.Base.{ℕ, ◌-◌, ◌≡◌, List, length, window, length-window}
use shiori.Ring.{Ring}
use shiori.Base.{bytes_of}

abbrev pub contents : Ring → List ℕ
contents r = window 0 (bytes_of r.storage) r.capacity r.tail (r.head - r.tail)

pub length-contents : (r : Ring) → length (contents r) ≡ r.head - r.tail
length-contents r = length-window 0 (bytes_of r.storage) r.capacity r.tail (r.head - r.tail)
