-- ===== src/Examples/Shared.antt =====
-- Invites, sources, the sources file and the pages at concrete data.
use career_spyder.Prelude.{pos, ◌==◌, ◌≡◌, ◌-◌, ◌*◌, ◌≤◌, arith, some, [], ◌∷◌, filter, nat_eq}
use career_spyder.Database.{InviteRow}
use career_spyder.Table.{count_where}
use career_spyder.Config.{diff_import}
use career_spyder.Config.Laws.{is_added, is_updated, is_unchanged, new_side, diff_import_lem}
use career_spyder.Invites.{claim_invite, release_invite}
use career_spyder.Invites.Laws.{claim-release-claim}
use career_spyder.Sources.{import_sources}
use career_spyder.Sources.Laws.{rows_of, rows_of-import_sources}
use career_spyder.Pagination.{paginate, paginate_bounds}
use career_spyder.Examples.{db, board, other_board, alice_is_not_bob}

claim-release-claim_example :
    (claim_invite 11 "t1" (release_invite "t1" (claim_invite 10 "t1" db).0)).1
    ≡ nat_eq (count_where (λ (i : InviteRow). i.token == "t1") db.invites) 1
claim-release-claim_example = claim-release-claim 10 11 "t1" db

-- Alice imports a source whose id is Bob's: it is stored under the drawn one.
rows_of-import_sources_example :
    rows_of "bob" (import_sources 5 "alice" ((other_board, "s9") ∷ []) db).0.sources
    ≡ rows_of "bob" db.sources
rows_of-import_sources_example =
    rows_of-import_sources 5 "alice" "bob" ((other_board, "s9") ∷ []) db alice_is_not_bob

diff_import_lem_example :
    ((diff_import (board ∷ []) (record board { name = "B" } ∷ other_board ∷ [])).added
      ≡ filter (is_added (board ∷ [])) (record board { name = "B" } ∷ other_board ∷ []))
    × (new_side (diff_import (board ∷ []) (record board { name = "B" } ∷ other_board ∷ [])).updated
        ≡ filter (is_updated (board ∷ [])) (record board { name = "B" } ∷ other_board ∷ []))
    × ((diff_import (board ∷ []) (record board { name = "B" } ∷ other_board ∷ [])).unchanged
        ≡ filter (is_unchanged (board ∷ [])) (record board { name = "B" } ∷ other_board ∷ []))
diff_import_lem_example =
    diff_import_lem (board ∷ []) (record board { name = "B" } ∷ other_board ∷ [])

-- A page beyond the last one, and a negative one.
paginate_bounds_example :
    (1 ≤ (paginate 45 (some (pos 9)) 20).page)
    × ((paginate 45 (some (pos 9)) 20).page ≤ (paginate 45 (some (pos 9)) 20).total_pages)
    × ((paginate 45 (some (pos 9)) 20).offset ≤ 45 - 1)
    × (45 ≤ (paginate 45 (some (pos 9)) 20).total_pages * 20)
paginate_bounds_example = paginate_bounds 45 (some (pos 9)) 20 (omega arith)
