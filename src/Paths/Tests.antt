-- ===== src/Paths/Tests.antt =====
-- Names built from small inputs.
use veillee.Base.{◌≤◌, ◌≡◌, [], ◌∷◌, length, arith}
use veillee.Base.Text.{codes}
use veillee.Base.Decimal.{pad}
use veillee.Paths.{slugify, recording_id, recording_dir_for, Moment}
use veillee.Paths.Slug.{IsSlug, slugify-IsSlug}
use veillee.Paths.Ids.{recording_dir_for-recording_id}

slugify-IsSlug_example :
    IsSlug (slugify (λ t. t) (codes "Où est-il né ?") 20)
    × (length (slugify (λ t. t) (codes "Où est-il né ?") 20) ≤ 20)
slugify-IsSlug_example = slugify-IsSlug (λ t. t) (codes "Où est-il né ?") 20 (omega arith)

abbrev noon : Moment
noon = record {
  year = 2024;
  month = 3;
  day = 9;
  hour = 12;
  minute = 0;
  second = 5;
  microsecond = 7;
}

recording_dir_for-recording_id_example :
    recording_dir_for (recording_id (codes "q001") noon) ≡ pad 4 2024 ∷ pad 2 3 ∷ []
recording_dir_for-recording_id_example =
    recording_dir_for-recording_id (codes "q001") noon (omega arith) (omega arith)
