-- ===== src/Pagination/Tests.antt =====
-- A table of five rows, each its own identifier.
use seo_agent_rct.Prelude.{ℕ, ◌≡◌, refl, pos, List, [], ◌∷◌, Option, none, some, take, keep, arith}
use seo_agent_rct.Text.{Text}
use seo_agent_rct.Pagination.{
  Order, desc, CursorLib, CursorValue, int_value, text_value, Query, get_paginated_response,
}
use seo_agent_rct.Pagination.Cursors.{IsCodec, beyond, follow_cursors, follow_cursors-listing}
use seo_agent_rct.Pagination.Limits.{drop}
use seo_agent_rct.Pagination.Offsets.{read_pages, read_pages-all}

abbrev int_of : Text → Option ℕ
int_of [] = none
int_of (n ∷ s) = some n

abbrev untag : Text → Option Text
untag [] = none
untag (c ∷ s) = some s

abbrev plain : CursorLib
plain = record { str = λ n. n ∷ []; int = int_of; b64encode = λ s. b'=' ∷ s; b64decode = untag }

plain-IsCodec : IsCodec plain
plain-IsCodec = record { reads_base64 = λ s. refl; reads_int = λ n. refl; not_empty = λ n. refl }

abbrev ids : List ℕ
ids = 9 ∷ 7 ∷ 4 ∷ 3 ∷ 1 ∷ []

abbrev beyond_value : Order → CursorValue → List ℕ
beyond_value o (int_value v) = keep (λ x. beyond o v x) ids
beyond_value o (text_value s) = []

abbrev table : Query ℕ
table = record {
  offset_limit = λ skip n. take n (drop skip ids);
  count = 5;
  first = λ o n. take n ids;
  first_beyond = λ o v n. take n (beyond_value o v);
}

follow_cursors-listing_example :
    follow_cursors plain plain-IsCodec table (λ n. n) desc (pos 2) 100 6 none ≡ some ids
follow_cursors-listing_example =
    follow_cursors-listing plain plain-IsCodec table (λ n. n) desc (pos 2) 100 6 ids
      (record {
        ordered = (
          (refl, (refl, (refl, (refl, tt)))),
          ((refl, (refl, (refl, tt))), ((refl, (refl, tt)), ((refl, tt), (tt, tt)))),
        );
        first = λ n. refl;
        first_beyond = λ v n. refl;
      })
      (omega arith)

all_pages_read :
    read_pages table (pos 2) 100 (get_paginated_response table (pos 4) (pos 2) 100).pages 0 ≡ ids
all_pages_read =
    read_pages-all table (pos 2) (pos 4) 100 ids
      (record { offset_limit = λ skip n. refl; count = refl })
