-- ===== src/SystemCalls/Calls.antt =====
-- What the calls of the user library come to in the kernel.
use horaci_os.Prelude.{ℕ, ◌≡◌, ◌<◌, ◌^◌, refl, ap, arith}
use horaci_os.SystemCalls.{Handlers, int, malloc_handler, handle, sys_call_dispatcher}
use horaci_os.SystemCalls.Library
use horaci_os.SystemCalls.Library.{call, error}

module _ {S : Type 0} ⦃h : Handlers S⦄ where
  -- What a function of the kernel returns, with the local variable holding it.
  abbrev pub kept : ℕ → ℕ × S → ℕ × S
  kept local r = (r.0, h.store local r.0 r.1)

  stored_result :
      (local : ℕ) (r : ℕ × S)
      → (h.load local (h.store local r.0 r.1), h.store local r.0 r.1) ≡ kept local r
  stored_result local r = ap (λ (v : ℕ). (v, h.store local r.0 r.1)) (h.load-store local r.0 r.1)

  -- The functions for mailboxes reach the kernel's functions of the same names with their arguments, and
  -- return what those return; before a message is written or read the local variable holds ERROR.
  pub mailbox_calls :
      (local mailbox name msg bytes dest : ℕ) (s : S)
      → bytes < 2 ^ 32
      → (Library.create_mailbox local name s ≡ kept local (h.create_mailbox name s))
        × (Library.write_message local mailbox msg s
            ≡ kept local (h.write_message mailbox msg (h.store local error s)))
        × (Library.read_message local mailbox bytes dest s
            ≡ kept local (h.read_message mailbox bytes dest (h.store local error s)))
        × (Library.destroy_mailbox mailbox s ≡ h.destroy_mailbox mailbox s)
  unfolding Library.create_mailbox Library.write_message Library.read_message
      Library.destroy_mailbox call handle
  mailbox_calls local mailbox name msg bytes dest s lt =
      let e : int bytes ≡ bytes = omega arith in
      (
        stored_result local (h.create_mailbox name s),
        stored_result local (h.write_message mailbox msg (h.store local error s)),
        rw e (stored_result local (h.read_message mailbox bytes dest (h.store local error s))),
        refl,
      )

  -- The functions for mutexes and semaphores reach the kernel's functions of the same names, for an
  -- initial value that fits an `int`.
  pub lock_calls :
      (local mutex sem name value : ℕ) (s : S)
      → value < 2 ^ 32
      → (Library.mutex_create local name s ≡ kept local (h.mutex_create name s))
        × (Library.mutex_lock mutex s ≡ h.mutex_lock mutex s)
        × (Library.mutex_unlock mutex s ≡ h.mutex_unlock mutex s)
        × (Library.mutex_destroy mutex s ≡ h.mutex_destroy mutex s)
        × (Library.sem_create local name value s ≡ kept local (h.sem_create name value s))
        × (Library.sem_wait sem s ≡ h.sem_wait sem s)
        × (Library.sem_signal sem s ≡ h.sem_signal sem s)
        × (Library.sem_destroy sem s ≡ h.sem_destroy sem s)
  unfolding Library.mutex_create Library.mutex_lock Library.mutex_unlock Library.mutex_destroy
      Library.sem_create Library.sem_wait Library.sem_signal Library.sem_destroy call handle
  lock_calls local mutex sem name value s lt =
      let e : int value ≡ value = omega arith in
      (
        stored_result local (h.mutex_create name s),
        refl,
        refl,
        refl,
        rw e (stored_result local (h.sem_create name value s)),
        refl,
        refl,
        refl,
      )

  -- The functions for memory and processes reach the kernel's functions with their arguments, for a
  -- process id and a priority of 32 bits; malloc returns what the kernel's malloc returns, which is called
  -- when the local variable holds NULL.
  pub process_calls :
      (local bytes address pid priority entry_point argv header : ℕ) (s : S)
      → pid < 2 ^ 32
      → priority < 2 ^ 32
      → (Library.malloc local bytes s ≡ kept local (h.malloc bytes (h.store local 0 s)))
        × (Library.free address s ≡ h.free_handler address s)
        × (Library.print_memory_bitmap s ≡ h.print_bitmap s)
        × (Library.nice pid priority s ≡ h.change_priority pid priority s)
        × (Library.kill pid s ≡ h.mark_process_as_finished pid s)
        × (Library.new_process entry_point argv header s
            ≡ h.create_process argv entry_point header s)
  unfolding Library.malloc Library.free Library.print_memory_bitmap Library.nice Library.kill
      Library.new_process call handle sys_call_dispatcher malloc_handler
  process_calls local bytes address pid priority entry_point argv header s p q =
      let e : int pid ≡ pid = omega arith in
      let f : int priority ≡ priority = omega arith in
      (
        stored_result local (h.malloc bytes (h.store local 0 s)),
        refl,
        refl,
        rw (e, f) refl,
        rw e refl,
        refl,
      )
