-- ===== src/Guard/Blooms.antt =====
-- cas/bloom/guard.go: the filters of cas/bloom/standard and cas/bloom/counting behind a guard.
use go_cask.Common.{none, some}
use go_cask.Guard.{Filter, FilterLaws}
use go_cask.Bloom.Counting as Counting
use go_cask.Bloom.Counting.Holds as CountingHolds
use go_cask.Bloom.Standard as Standard
use go_cask.Bloom.Standard.Words as Words
use go_cask.Bloom.Standard.Holds as StandardHolds

abbrev pub standard_filter : Filter
standard_filter = record {
  Bits = Standard.Filter;
  add = Standard.add;
  holds = Standard.holds;
  take_out = none;
}

pub standard_laws : FilterLaws standard_filter
standard_laws = record {
  IsSound = Words.IsSound;
  sound_add = StandardHolds.add-IsSound;
  added = StandardHolds.holds-add;
  kept = λ d j f s h. StandardHolds.add-keeps d j f h;
}

abbrev pub counting_filter : Filter
counting_filter = record {
  Bits = Counting.Filter;
  add = Counting.add;
  holds = Counting.holds;
  take_out = some Counting.remove;
}

pub counting_laws : FilterLaws counting_filter
counting_laws = record {
  IsSound = CountingHolds.IsSound;
  sound_add = CountingHolds.add-IsSound;
  added = CountingHolds.holds-add;
  kept = CountingHolds.add-keeps;
}
