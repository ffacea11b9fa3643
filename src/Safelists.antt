-- ===== src/Safelists.antt =====
-- backend/api/safelists.go: the entries of the safelist, and what `IsSafelisted` and, in
-- backend/scanner/passive.go, `isSafelistedMAC` find in them. PostgreSQL's test whether an address
-- lies in a network is an argument, and so is whether a statement fails.
pub mod Protects
use seagles.Common.{
  ℕ, Bool, true, false, ◌&&◌, ◌||◌, Option, none, some, List, [], ◌∷◌, ◌==◌, if◌then◌else◌, any,
}
use seagles.Dict.{lookup, insert, update, is_some}
use seagles.Text.{Text, codes, text_eq, to_lower, trim_space}

pub record SafelistEntry : Type 0 where
  pub entry_type : Text
  pub value : Text
  pub reason : Option Text
  pub created_by : Option Text
  pub is_active : Bool

pub record CreateSafelistRequest : Type 0 where
  pub entry_type : Text
  pub value : Text
  pub reason : Text

pub data Answer : Type 0 where
  success bad_request bad_id not_found server_error : Answer

abbrev pub nullable : Text → Option Text
nullable [] = none
nullable (c ∷ s) = some (c ∷ s)

abbrev pub new_entry : CreateSafelistRequest → Option Text → SafelistEntry
new_entry req user = record {
  entry_type = req.entry_type;
  value = req.value;
  reason = nullable (trim_space req.reason);
  created_by = user;
  is_active = true;
}

-- `req` is none where the body does not pass gin's validation; `new_id` is the id of the inserted
-- row, or none where the statement fails.
unfoldable pub create_safelist_handler :
    Option CreateSafelistRequest
    → Option Text
    → Option Text
    → List (Text × SafelistEntry)
    → List (Text × SafelistEntry) × Answer
create_safelist_handler none user new_id rows = (rows, bad_request)
create_safelist_handler (some req) user none rows = (rows, server_error)
create_safelist_handler (some req) user (some id) rows =
    (insert id (new_entry req user) rows, success)

abbrev pub deactivate : SafelistEntry → SafelistEntry
deactivate e = record e { is_active = false }

unfoldable pub delete_safelist_handler :
    (is_uuid : Text → Bool)
    → (exec_fails : Bool) → Text
    → List (Text × SafelistEntry)
    → List (Text × SafelistEntry) × Answer
delete_safelist_handler is_uuid exec_fails id rows =
    if is_uuid id
    then (if exec_fails
        then (rows, server_error)
        else (if is_some (lookup id rows)
            then (update id deactivate rows, success)
            else (rows, not_found)))
    else (rows, bad_id)

module _ (in_network : Text → Text → Bool) where
  unfoldable pub covers_ip : Text → SafelistEntry → Bool
  covers_ip ip e =
      e.is_active
      && ((e.entry_type == codes "ip" && e.value == ip)
          || (e.entry_type == codes "cidr" && in_network ip e.value))

  -- A count that could not be read is 0.
  unfoldable pub is_safelisted : Bool → List (Text × SafelistEntry) → Text → Bool
  unfolding covers_ip
  is_safelisted query_fails rows ip =
      if query_fails then false else any (λ r. covers_ip ip r.1) rows

unfoldable pub covers_mac : Text → SafelistEntry → Bool
covers_mac mac e = e.is_active && (e.entry_type == codes "mac" && to_lower e.value == to_lower mac)

unfoldable pub is_safelisted_mac : Bool → List (Text × SafelistEntry) → Text → Bool
unfolding covers_mac
is_safelisted_mac query_fails rows mac =
    if mac == [] then false else (if query_fails then false else any (λ r. covers_mac mac r.1) rows)
