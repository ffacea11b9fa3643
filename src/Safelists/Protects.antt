-- ===== src/Safelists/Protects.antt =====
-- What an entry of the safelist protects from (backend/api/safelists.go and scans.go).
use seagles.Common.{
  ◌≡◌, ◌⊎◌, inl, inr, ◌∙◌, refl, Bool, true, false, Option, none, some, List, [], ◌∷◌, arith, ◌==◌,
  any, All,
}
use seagles.Dict.{lookup, insert, lookup-update, lookup-insert}
use seagles.Text.{Text, codes, text_eq, text_beq_iff}
use seagles.Safelists.{
  SafelistEntry, CreateSafelistRequest, create_safelist_handler, delete_safelist_handler, covers_ip,
  is_safelisted, deactivate, new_entry,
}

pub data Op : Type 0 where
  creates : Option CreateSafelistRequest → Option Text → Option Text → Op
  deletes : Bool → Text → Op

module _ (is_uuid : Text → Bool) (in_network : Text → Text → Bool) where
  pub apply : Op → List (Text × SafelistEntry) → List (Text × SafelistEntry)
  apply (creates req user id) rows = (create_safelist_handler req user id rows).0
  apply (deletes fails id) rows = (delete_safelist_handler is_uuid fails id rows).0

  pub apply_all : List Op → List (Text × SafelistEntry) → List (Text × SafelistEntry)
  apply_all [] rows = rows
  apply_all (op ∷ ops) rows = apply_all ops (apply op rows)

  -- The id is neither given to another entry nor deleted.
  abbrev pub Keeps : Text → Op → Type 0
  Keeps id (creates req user none) = Unit {0}
  Keeps id (creates req user (some new)) = (new == id) ≡ false
  Keeps id (deletes fails old) = (old == id) ≡ false

  apply-lookup :
      (id : Text) (op : Op) (rows : List (Text × SafelistEntry))
      → Keeps id op
      → lookup id (apply op rows) ≡ lookup id rows
  unfolding apply create_safelist_handler delete_safelist_handler
  apply-lookup id (creates none user new) rows k = refl
  apply-lookup id (creates (some req) user none) rows k = refl
  apply-lookup id (creates (some req) user (some new)) rows k =
      let e = new_entry req user in ground (arith, k, lookup-insert new id e rows)
  apply-lookup id (deletes fails old) rows k =
      ground (arith, k, lookup-update old id deactivate rows)

  apply_all-lookup :
      (id : Text) (ops : List Op) (rows : List (Text × SafelistEntry))
      → All (Keeps id) ops
      → lookup id (apply_all ops rows) ≡ lookup id rows
  unfolding apply_all
  apply_all-lookup id [] rows k = refl
  apply_all-lookup id (op ∷ ops) rows k =
      apply_all-lookup id ops (apply op rows) k.1 ∙ apply-lookup id op rows k.0

  covered :
      (id ip : Text) (e : SafelistEntry) (rows : List (Text × SafelistEntry))
      → lookup id rows ≡ some e
      → covers_ip in_network ip e ≡ true
      → any (λ r. covers_ip in_network ip r.1) rows ≡ true
  unfolding lookup
  covered id ip e [] h c = cc
  covered id ip e ((j, w) ∷ rows) h c = ground (arith, c, covered id ip e rows)

  -- The address itself, or a network that it lies in.
  abbrev pub Names : CreateSafelistRequest → Text → Type 0
  Names req ip =
      ((req.entry_type ≡ codes "ip") × (req.value ≡ ip))
      ⊎ ((req.entry_type ≡ codes "cidr") × (in_network ip req.value ≡ true))

  covers-Names :
      (req : CreateSafelistRequest) (user : Option Text) (ip : Text)
      → Names req ip
      → covers_ip in_network ip (new_entry req user) ≡ true
  unfolding covers_ip
  covers-Names req user ip (inl (t, v)) =
      ground (arith, t, text_beq_iff req.entry_type (codes "ip"), text_beq_iff req.value ip, v)
  covers-Names req user ip (inr (t, v)) =
      ground (arith, t, text_beq_iff req.entry_type (codes "cidr"), v)

  -- An address that is put on the safelist, itself or with a network that it lies in, is found there,
  -- whatever entries are made and deactivated afterwards, as long as its own entry is not
  -- deactivated, no new entry gets its id, and the safelist can be read.
  pub created_entry_covers :
      (req : CreateSafelistRequest) (user : Option Text) (id ip : Text) (ops : List Op)
      (rows : List (Text × SafelistEntry))
      → Names req ip
      → All (Keeps id) ops
      → is_safelisted in_network false
          (apply_all ops (create_safelist_handler (some req) user (some id) rows).0)
          ip
        ≡ true
  unfolding is_safelisted create_safelist_handler
  created_entry_covers req user id ip ops rows n k =
      let e = new_entry req user in
      covered id ip e (apply_all ops (insert id e rows))
        (apply_all-lookup id ops (insert id e rows) k
          ∙ ground (arith, lookup-insert id id e rows, text_beq_iff id id))
        (covers-Names req user ip n)
