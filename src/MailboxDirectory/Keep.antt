-- ===== src/MailboxDirectory/Keep.antt =====
-- The functions of Kernel/mailbox.c keep the directory valid.
use horaci_os.Prelude.{ℕ, ◌≡◌, List, some, Option-cases, inl, inr, arith}
use horaci_os.Services.{Services}
use horaci_os.Directory.Valid.{IsValid, claim-IsValid, vacate-IsValid, slot_in}
use horaci_os.Directory.Find.{get_index-named}
use horaci_os.MailboxDirectory.{
  Mailboxes, max_mailboxes, mailbox_struct_size, name_at, get_mailbox_index, add_mailbox,
  create_new, create_mailbox, destroy_mailbox_by_name,
}

module _ {S : Type 0} ⦃k : Services S⦄ where
  add_mailbox-IsValid :
      (name : List ℕ) (t : Mailboxes S) (i p : ℕ)
      → IsValid max_mailboxes t.directory
      → t.directory.free_index ≡ some i
      → IsValid max_mailboxes (add_mailbox name i p t).directory
  unfolding add_mailbox
  add_mailbox-IsValid name t i p v f = claim-IsValid max_mailboxes t.directory i p v f

  create_new-IsValid :
      (name : List ℕ) (t : Mailboxes S)
      → IsValid max_mailboxes t.directory
      → IsValid max_mailboxes (create_new name t).1.directory
  unfolding create_new
  create_new-IsValid name t v = elim (Option-cases t.directory.free_index) [
    | inl no_slot ↦ rw (no_slot, create_new) v
    | inr (i, f) ↦ elim (Option-cases (k.malloc mailbox_struct_size t.sys).0) [
      | inl no_room ↦ rw (f, no_room, create_new) v
      | inr (p, g) ↦
          rw (f, g, create_new)
            (add_mailbox-IsValid name (record t { sys = (k.malloc mailbox_struct_size t.sys).1 }) i
              p v f)
    ]
  ]

  -- `create_mailbox` keeps a valid directory valid, whether it returns an old mailbox, a new one or
  -- NULL.
  pub create_mailbox-IsValid :
      (name : List ℕ) (t : Mailboxes S)
      → IsValid max_mailboxes t.directory
      → IsValid max_mailboxes (create_mailbox name t).1.directory
  unfolding create_mailbox
  create_mailbox-IsValid name t v = elim (Option-cases (get_mailbox_index name t)) [
    | inl missing ↦ rw (missing, create_mailbox) (create_new-IsValid name t v)
    | inr (i, found) ↦ rw (found, create_mailbox) v
  ]

  -- `destroy_mailbox_by_name` keeps a valid directory valid, whether the name is found or not.
  pub destroy_mailbox-IsValid :
      (name : List ℕ) (t : Mailboxes S)
      → IsValid max_mailboxes t.directory
      → IsValid max_mailboxes (destroy_mailbox_by_name name t).directory
  unfolding destroy_mailbox_by_name get_mailbox_index
  destroy_mailbox-IsValid name t v = elim (Option-cases (get_mailbox_index name t)) [
    | inl missing ↦ rw (missing, destroy_mailbox_by_name) v
    | inr (i, found) ↦
        let (p, here, same) = get_index-named (name_at t) name t.directory i found in
        let lt = slot_in t.directory.slots i here in
        rw (found, destroy_mailbox_by_name)
          (vacate-IsValid max_mailboxes t.directory i v (let z = v.size in omega arith))
  ]
