-- ===== src/Anchor.antt =====
-- `AnchorStatus` and `AnchorRecord` of src/app/services/anchor_service.py, and the rows of the table
-- `anchors`, whose status is text.
use ared_edge_iota_anchor.Prelude.{
  ℕ, ◌≡◌, refl, Option, Result, ok, err, value_error, ◌>>=◌, if◌then◌else◌,
}
use ared_edge_iota_anchor.Text.{Str, str, str_eq}

pub data AnchorStatus : Type 0 where
  pending building posting posted confirming confirmed failed : AnchorStatus

-- The values of the enumeration.
unfoldable pub status_value : AnchorStatus → Str
status_value pending = str "pending"
status_value building = str "building"
status_value posting = str "posting"
status_value posted = str "posted"
status_value confirming = str "confirming"
status_value confirmed = str "confirmed"
status_value failed = str "failed"

-- `AnchorStatus(s)`.
unfoldable pub parse_status : Str → Result AnchorStatus
unfolding status_value str_eq
parse_status s =
    if str_eq s (status_value pending)
    then ok pending
    else if str_eq s (status_value building)
    then ok building
    else if str_eq s (status_value posting)
    then ok posting
    else if str_eq s (status_value posted)
    then ok posted
    else if str_eq s (status_value confirming)
    then ok confirming
    else if str_eq s (status_value confirmed)
    then ok confirmed
    else if str_eq s (status_value failed)
    then ok failed
    else err value_error

-- Times are microseconds, ids are numbers.
pub record Anchor (S : Type 0) : Type 0 where
  pub id : ℕ
  pub digest : Str
  pub method : Str
  pub start_time : ℕ
  pub end_time : ℕ
  pub item_count : ℕ
  pub status : S
  pub iota_block_id : Option Str
  pub iota_network : Option Str
  pub explorer_url : Option Str
  pub created_at : ℕ
  pub posted_at : Option ℕ
  pub confirmed_at : Option ℕ
  pub error_message : Option Str

abbrev pub AnchorRecord : Type 0
AnchorRecord = Anchor AnchorStatus

abbrev pub AnchorRow : Type 0
AnchorRow = Anchor Str

unfoldable pub with_status : {S T : Type 0} → Anchor S → T → Anchor T
with_status a s = record {
  id = a.id;
  digest = a.digest;
  method = a.method;
  start_time = a.start_time;
  end_time = a.end_time;
  item_count = a.item_count;
  status = s;
  iota_block_id = a.iota_block_id;
  iota_network = a.iota_network;
  explorer_url = a.explorer_url;
  created_at = a.created_at;
  posted_at = a.posted_at;
  confirmed_at = a.confirmed_at;
  error_message = a.error_message;
}

-- The parameters of the INSERT, and the record that a SELECT builds.
unfoldable pub to_row : AnchorRecord → AnchorRow
unfolding with_status
to_row a = with_status a (status_value a.status)

unfoldable pub from_row : AnchorRow → Result AnchorRecord
unfolding with_status
from_row row = do status ← parse_status row.status; ok (with_status row status)

pub parse_status-status_value : (s : AnchorStatus) → parse_status (status_value s) ≡ ok s
unfolding parse_status
parse_status-status_value pending = refl
parse_status-status_value building = refl
parse_status-status_value posting = refl
parse_status-status_value posted = refl
parse_status-status_value confirming = refl
parse_status-status_value confirmed = refl
parse_status-status_value failed = refl

-- Reading back the row of a record gives the record.
pub from_row-to_row : (a : AnchorRecord) → from_row (to_row a) ≡ ok a
unfolding from_row to_row
from_row-to_row a = rw (parse_status-status_value a.status)
