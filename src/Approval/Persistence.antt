-- ===== src/Approval/Persistence.antt =====
-- What the bridge finds again in `DBStore` after a restart.
use codeallremote.Prelude.Int.{ℤ}
use codeallremote.Prelude.{
  String, Bool, true, false, none, some, List, [], ◌∷◌, ◌++◌, ◌≡◌, refl, ◌==◌, string_eq, str_refl,
  select, any, select-map, select_none, select-snoc, first_of_select, All-intro, Bool-cases, inl,
  inr, ap, ◌∙◌,
}
use codeallremote.Prelude.Dict.{lookup, lookup-insert_self}
use codeallremote.Prelude.Result.{ok}
use codeallremote.Domain.{Approval}
use codeallremote.Domain.ApprovalState
use codeallremote.Storage.Database.{sound, Tables, Db}
use codeallremote.Storage.Sessions.{has_id}
use codeallremote.Approval.Bridge.{Bridge, new_bridge}
use codeallremote.Approval.Upkeep.{add_duration, extend_expiry, extend_approval, get_by_id}
use codeallremote.Approval.DbStore.{
  Codec, has_approval_id, approval_row, update_row, db_create, db_get_by_id, db_update, db_store,
}

select-snoc_none :
    (p : Approval → Bool) (xs : List Approval) (y : Approval)
    → any p xs ≡ false
    → p y ≡ true
    → select p (xs ++ y ∷ []) ≡ y ∷ []
select-snoc_none p xs y h e = select-snoc p xs y e ∙ ap (λ ys. ys ++ y ∷ []) (select_none p xs h)

module _ (codec : Codec) where
  -- Where the driver does not fail and the payload's JSON text reads back as the payload, an approval of a
  -- known session with a new id that `DBStore.Create` has stored is returned by `GetByID` as it was, but
  -- without the time and the reason of a decision.
  pub db_get_by_id-db_create :
      (a : Approval) (t : Tables)
      → any (has_approval_id a.id) t.approvals ≡ false
      → any (has_id a.session_id) t.sessions ≡ true
      → codec.unmarshal (codec.marshal a.structured_payload) ≡ ok a.structured_payload
      → ((db_create codec a (sound t)).1 ≡ none)
        × ((db_get_by_id codec a.id (db_create codec a (sound t)).0).1
            ≡ ok (record a { decided_at = none; decision_reason = none }))
  unfolding db_create db_get_by_id
  db_get_by_id-db_create a t new known codes = rw new (
      rw known (
        refl,
        rw
            (select-snoc_none (has_approval_id a.id) t.approvals
              (approval_row (codec.marshal a.structured_payload) a) new (str_refl a.id))
            (rw codes refl),
      ))

  update_row-id : (a row : Approval) → (update_row a row).id ≡ row.id
  update_row-id a row = elim (Bool-cases (row.id == a.id)) [ inl e ↦ rw e refl | inr n ↦ rw n refl ]

  -- Where the driver does not fail and the stored payload can be read, `GetByID` after `DBStore.Update`
  -- gives the stored row with the state, the time and the reason of the decision of the updated approval:
  -- all its other fields, the expiry among them, are those stored before.
  db_get_by_id-db_update :
      (a row : Approval) (rest : List Approval) {text : String} (t : Tables)
      → select (has_approval_id a.id) t.approvals ≡ row ∷ rest
      → codec.unmarshal row.structured_payload ≡ ok text
      → (db_get_by_id codec a.id (db_update codec a (sound t)).0).1
        ≡ ok (record row {
          structured_payload = text;
          state = a.state;
          decided_at = a.decided_at;
          decision_reason = a.decision_reason;
        })
  unfolding db_get_by_id db_update
  db_get_by_id-db_update a row rest {text} t e codes =
      let own =
        (first_of_select (λ x. Unit {0}) (has_approval_id a.id) t.approvals
          (All-intro _ t.approvals (λ x. tt)) e).1 in
      rw
        (select-map (has_approval_id a.id) (update_row a) t.approvals
          (λ x. ap (λ (i : String). i == a.id) (update_row-id a x)))
        (rw e (rw own (rw codes refl)))

  -- Where the driver does not fail, a bridge over `DBStore` that has moved the expiry of a pending
  -- approval of its map has the moved expiry there; but a new bridge over the database that it leaves
  -- returns the approval with the expiry that it had before, if the stored row was the approval with its
  -- payload as a text that reads back.
  pub extend_expiry_lost :
      (d : ℤ) (a : Approval) (payload : String) (rest : List Approval) (b : Bridge Db) (t : Tables)
      → lookup a.id b.approvals ≡ some a
      → (a.state == ApprovalState.pending) ≡ true
      → b.store ≡ some (sound t)
      → select (has_approval_id a.id) t.approvals ≡ record a { structured_payload = payload } ∷ rest
      → codec.unmarshal payload ≡ ok a.structured_payload
      → let b' = (extend_expiry (db_store codec) a.id d b).0 in
        (lookup a.id b'.approvals ≡ some (record a { expires_at = add_duration a.expires_at d }))
        × ((get_by_id (db_store codec) a.id (new_bridge b'.store)).1 ≡ ok a)
  unfolding extend_expiry new_bridge get_by_id lookup
  extend_expiry_lost d a payload rest b t h p hs e codes = rw h (
      rw p (
        rw hs (
          lookup-insert_self a.id (extend_approval d a) b.approvals,
          db_get_by_id-db_update (extend_approval d a) (record a { structured_payload = payload })
              rest t e codes,
        )))
