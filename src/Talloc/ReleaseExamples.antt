-- ===== src/Talloc/ReleaseExamples.antt =====
-- Uses of the theorems about giving memory to the allocator, at the arena of Talloc.Empty.
use tauos.Base.{◌≡◌, refl, inl, inr, arith, some}
use tauos.Talloc.{State}
use tauos.Talloc.Fresh.{no_blocks}
use tauos.Talloc.Empty.{empty_state, empty-Valid}
use tauos.Talloc.Release.{release}
use tauos.Talloc.Span.{IsSpan}
use tauos.Talloc.Spans.{IsReleased}
use tauos.Talloc.Releases.{release-IsReleased}

middle : IsSpan empty_state 6 no_blocks 16 48
middle = record {
  above = omega arith;
  below = omega arith;
  clear = λ x p q c. absurd (ground (arith, c.listed));
  spared = λ h l. inr (omega arith);
}

-- Of the 50 bytes from 10, the blocks from 16 to 48 are freed.
release-IsReleased_example :
    (u : State) × ((release empty_state 10 50 ≡ some u)
      × IsReleased empty_state u 6 no_blocks 16 48)
release-IsReleased_example =
    release-IsReleased empty_state 6 4 no_blocks 10 50 empty-Valid
      (refl, (omega arith, omega arith)) (inl (omega arith)) (omega arith) (omega arith)
      (omega arith) (omega arith) middle
