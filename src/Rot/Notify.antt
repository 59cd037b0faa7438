-- ===== src/Rot/Notify.antt =====
-- The listeners: OnRegisterObject, OnRevokeObject, RegisterNotify and UnregisterNotify.
use oocore.Prelude.{ℕ, ◌==◌, ◌&&◌, not, Option, none, some, List, [], ◌∷◌, if◌then◌else◌}
use oocore.Registry.Tables.{Text}
use oocore.Rot.Tables.{HandleTable, MultiTable}
use oocore.Rot.State.{
  Info, Call, told_register, told_revoke, Env, Rot, call, Outcome, returned, threw, out_of_memory,
}

-- m_mapNotify.remove for each of stackRemove
unfoldable pub remove_all :
    (N : HandleTable ℕ) → List ℕ → HandleTable.Carrier N → HandleTable.Carrier N
remove_all N [] t = t
remove_all N (key ∷ stack) t = remove_all N stack (HandleTable.remove N t key)

module _ {O : HandleTable Info} {M : MultiTable} {N : HandleTable ℕ} where
  -- One round of the walk over m_mapNotify; `stack` is stackRemove. What a listener throws is
  -- caught.
  unfoldable pub tell_one : Env → (ℕ → Call) → ℕ → Rot O M N × List ℕ → Rot O M N × List ℕ
  tell_one env told key (s, stack) = elim (HandleTable.find N s.notify key) [
    | none ↦ (s, stack)
    | some listener ↦
        if env.alive s.log listener then (call (told listener) s, stack) else (s, key ∷ stack)
  ]

  unfoldable pub tell_all : Env → (ℕ → Call) → List ℕ → Rot O M N × List ℕ → Rot O M N × List ℕ
  tell_all env told [] r = r
  tell_all env told (key ∷ keys) r = tell_all env told keys (tell_one env told key r)

  -- The dead listeners are removed only where the lock is free.
  unfoldable pub forget_dead : Env → Rot O M N × List ℕ → Rot O M N
  forget_dead env (s, []) = s
  forget_dead env (s, key ∷ stack) =
      if env.try_lock s.log then record s { notify = remove_all N (key ∷ stack) s.notify } else s

  unfoldable pub on_register_object : Env → Text → ℕ → Rot O M N → Rot O M N
  on_register_object env oid flags s =
      forget_dead env
        (tell_all env (λ n. told_register n oid flags) (HandleTable.keys N s.notify) (s, []))

  unfoldable pub on_revoke_object : Env → Text → ℕ → Rot O M N → Rot O M N
  on_revoke_object env oid flags s =
      forget_dead env
        (tell_all env (λ n. told_revoke n oid flags) (HandleTable.keys N s.notify) (s, []))

  -- pObject is none where it is null.
  unfoldable pub register_notify : Env → ℕ → Option ℕ → Rot O M N → Rot O M N × Outcome ℕ
  register_notify env iid none s = (s, returned 0)
  register_notify env iid (some listener) s =
      if iid == env.notify_iid
      then elim (HandleTable.insert N s.notify listener 1 0xFFFFFFFF) [
        | none ↦ (s, threw out_of_memory)
        | some (t, cookie) ↦ (record s { notify = t }, returned cookie)
      ]
      else (s, returned 0)

  unfoldable pub unregister_notify : Env → ℕ → ℕ → Rot O M N → Rot O M N
  unregister_notify env iid cookie s =
      if (iid == env.notify_iid) && not (cookie == 0)
      then record s { notify = HandleTable.remove N s.notify cookie }
      else s
