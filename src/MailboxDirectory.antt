-- ===== src/MailboxDirectory.antt =====
-- The mailboxes of the kernel: the functions of Kernel/mailbox.c that find a mailbox by its name or
-- its address. `mailbox_at` is the memory behind the `mailbox_t` pointers; what `free_handler` gives
-- back stays readable there, as in the program.
pub mod Keep
use horaci_os.Prelude.{ℕ, List, Option, none, some, Bool, false, ◌==◌, if◌then◌else◌, take}
use horaci_os.Services.{Services}
use horaci_os.Strings.{text}
use horaci_os.Directory.{Directory, slot, get_index, claim, vacate}
use horaci_os.Directory
use horaci_os.MutexDirectory.{name_length}
use horaci_os.Mailbox.{Mailbox, Outcome}
use horaci_os.Mailbox

-- MAX_MAILBOXES and `sizeof(mailbox_struct_t)`.
unfoldable pub max_mailboxes : ℕ
max_mailboxes = 10

abbrev pub mailbox_struct_size : ℕ
mailbox_struct_size = 4188

pub record Mailboxes (S : Type 0) : Type 0 where
  pub directory : Directory
  pub mailbox_at : ℕ → Mailbox
  pub sys : S

-- How far a call of `read_message` gets before the process returns or blocks.
pub data Reading (S : Type 0) : Type 0 where
  error : Reading S
  blocked : Mailboxes S → Reading S
  done : List ℕ → Mailboxes S → Reading S

-- A write through a pointer.
unfoldable pub update : (ℕ → Mailbox) → ℕ → Mailbox → ℕ → Mailbox
update f p m q = if q == p then m else f q

module _ {S : Type 0} where
  abbrev pub name_at : Mailboxes S → ℕ → List ℕ
  name_at t p = (t.mailbox_at p).name

  unfoldable pub get_mailbox_index : List ℕ → Mailboxes S → Option ℕ
  get_mailbox_index name t = get_index (name_at t) name t.directory

  unfoldable pub store : ℕ → Mailbox → S → Mailboxes S → Mailboxes S
  store p m s t = record t { mailbox_at = update t.mailbox_at p m; sys = s }

module _ {S : Type 0} ⦃k : Services S⦄ where
  unfoldable pub init_post_office : Mailboxes S → Mailboxes S
  init_post_office t = record t { directory = Directory.init max_mailboxes }

  -- What `create_mailbox` does with a new object at address `p` and the free slot `i`. The queue's
  -- slots keep what stood in the memory.
  unfoldable pub add_mailbox : List ℕ → ℕ → ℕ → Mailboxes S → Mailboxes S
  add_mailbox name i p t = record t {
    directory = claim max_mailboxes t.directory i p;
    mailbox_at =
        update t.mailbox_at p
          (Mailbox.fresh (take name_length (text name)) (t.mailbox_at p).locked_queue);
  }

  unfoldable pub create_new : List ℕ → Mailboxes S → Option ℕ × Mailboxes S
  create_new name t = elim t.directory.free_index [
    | none ↦ (none, t)
    | some i ↦
        let (p?, s) = k.malloc mailbox_struct_size t.sys in
        elim p? [
          | none ↦ (none, record t { sys = s })
          | some p ↦ (some p, add_mailbox name i p (record t { sys = s }))
        ]
  ]

  -- The pointer that is returned, `none` for NULL.
  unfoldable pub create_mailbox : List ℕ → Mailboxes S → Option ℕ × Mailboxes S
  create_mailbox name t = elim (get_mailbox_index name t) [
    | some i ↦ (slot t.directory.slots i, t)
    | none ↦ create_new name t
  ]

  -- `write_message` and `read_message` on a pointer; NULL is an ERROR.
  unfoldable pub write_to : Option ℕ → List ℕ → Mailboxes S → Bool × Mailboxes S
  write_to none msg t = (false, t)
  write_to (some p) msg t =
      let (success, (m, s)) = Mailbox.write_message (t.mailbox_at p) msg t.sys in
      (success, store p m s t)

  unfoldable pub read_from : Option ℕ → ℕ → Mailboxes S → Reading S
  read_from none bytes t = error
  read_from (some p) bytes t = elim (Mailbox.read_message (t.mailbox_at p) bytes t.sys) [
    | Outcome.error ↦ error
    | Outcome.blocked m s ↦ blocked (store p m s t)
    | Outcome.done dest m ↦ done dest (store p m t.sys t)
  ]

  unfoldable pub write_message_by_name : List ℕ → List ℕ → Mailboxes S → Bool × Mailboxes S
  write_message_by_name name msg t = elim (get_mailbox_index name t) [
    | none ↦ (false, t)
    | some i ↦ write_to (slot t.directory.slots i) msg t
  ]

  unfoldable pub read_message_by_name : List ℕ → ℕ → Mailboxes S → Reading S
  read_message_by_name name bytes t = elim (get_mailbox_index name t) [
    | none ↦ error
    | some i ↦ read_from (slot t.directory.slots i) bytes t
  ]

  unfoldable pub free_mailbox : Option ℕ → S → S
  free_mailbox none s = s
  free_mailbox (some p) s = k.free_handler p s

  unfoldable pub destroy_mailbox_by_name : List ℕ → Mailboxes S → Mailboxes S
  unfolding free_mailbox
  destroy_mailbox_by_name name t = elim (get_mailbox_index name t) [
    | none ↦ t
    | some i ↦ record t {
      sys = free_mailbox (slot t.directory.slots i) t.sys;
      directory = vacate t.directory i;
    }
  ]

  unfoldable pub destroy_mailbox : ℕ → Mailboxes S → Mailboxes S
  destroy_mailbox p t = destroy_mailbox_by_name (name_at t p) t
