-- ===== src/Repository/Statuses.antt =====
-- `update_anchor_status` of src/app/db/repository.py on intact tables.
use ared_edge_iota_anchor.Prelude.{
  ℕ, ◌≡◌, refl, [], ◌∷◌, Option, none, some, ok, find, update_where,
}
use ared_edge_iota_anchor.Text.{Str}
use ared_edge_iota_anchor.Anchor.{
  AnchorRow, AnchorStatus, pending, building, posting, posted, confirming, confirmed, failed,
  status_value,
}
use ared_edge_iota_anchor.Repository.Anchors.{has_id, set_status}
use ared_edge_iota_anchor.Repository.Integrity.{Keeps, update-Intact}

record SetKeeps (status : AnchorStatus) (row row' : AnchorRow) : Type 0 where
  digest : row'.digest ≡ row.digest
  start : row'.start_time ≡ row.start_time
  end' : row'.end_time ≡ row.end_time
  id : row'.id ≡ row.id
  status' : row'.status ≡ status_value status

set_status-SetKeeps :
    (status : AnchorStatus) (block error_message : Option Str) (now : ℕ) (row : AnchorRow)
    → SetKeeps status row (set_status status block error_message now row)
unfolding set_status
set_status-SetKeeps pending block e now row = record {
  digest = refl;
  start = refl;
  end' = refl;
  id = refl;
  status' = refl;
}
set_status-SetKeeps building block e now row = record {
  digest = refl;
  start = refl;
  end' = refl;
  id = refl;
  status' = refl;
}
set_status-SetKeeps posting block e now row = record {
  digest = refl;
  start = refl;
  end' = refl;
  id = refl;
  status' = refl;
}
set_status-SetKeeps posted none e now row = record {
  digest = refl;
  start = refl;
  end' = refl;
  id = refl;
  status' = refl;
}
set_status-SetKeeps posted (some []) e now row = record {
  digest = refl;
  start = refl;
  end' = refl;
  id = refl;
  status' = refl;
}
set_status-SetKeeps posted (some (c ∷ s)) e now row = record {
  digest = refl;
  start = refl;
  end' = refl;
  id = refl;
  status' = refl;
}
set_status-SetKeeps confirming block e now row = record {
  digest = refl;
  start = refl;
  end' = refl;
  id = refl;
  status' = refl;
}
set_status-SetKeeps confirmed block e now row = record {
  digest = refl;
  start = refl;
  end' = refl;
  id = refl;
  status' = refl;
}
set_status-SetKeeps failed block none now row = record {
  digest = refl;
  start = refl;
  end' = refl;
  id = refl;
  status' = refl;
}
set_status-SetKeeps failed block (some []) now row = record {
  digest = refl;
  start = refl;
  end' = refl;
  id = refl;
  status' = refl;
}
set_status-SetKeeps failed block (some (c ∷ s)) now row = record {
  digest = refl;
  start = refl;
  end' = refl;
  id = refl;
  status' = refl;
}

-- `update_anchor_status`.
pub update-Keeps :
    (anchor_id : ℕ) (status : AnchorStatus) (block error_message : Option Str) (now : ℕ)
    → Keeps (λ t. (
      ok (find (has_id anchor_id) t.anchors),
      record t {
        anchors =
            update_where (has_id anchor_id) (set_status status block error_message now) t.anchors;
      },
    ))
update-Keeps anchor_id status block e now t h =
    update-Intact (has_id anchor_id) (set_status status block e now)
      (λ x. (set_status-SetKeeps status block e now x).digest)
      (λ x. (set_status-SetKeeps status block e now x).start)
      (λ x. (set_status-SetKeeps status block e now x).end')
      (λ x. (set_status-SetKeeps status block e now x).id)
      (λ x _. (status, (set_status-SetKeeps status block e now x).status')) t h
