-- ===== src/Request/Leave.antt =====
-- The well-formedness of the state after disconnect_user, send_scan_results and spread_message.
use aemu.Base.{refl, ◌∈◌, eq_cases, inl, inr}
use aemu.Bytes.{Bytes}
use aemu.Chain.{Ptr, null}
use aemu.Database.{Db}
use aemu.Group.Leave.{leave_group-IsServer}
use aemu.Session.Logout.{logout_user-IsServer}
use aemu.Request.{disconnect_user, send_scan_results, spread_message}
use aemu.Invariant.{View, IsServer, Handled}
use aemu.Invariant.Trace.{IsServerBut-spared}

module _ {s : Db} {v : View} (u : Ptr) (i : IsServer s v) (mem : u ∈ v.users) where
  -- disconnect_user of a user of a well-formed state, in a group or not, leaves a well-formed
  -- state. The user stays among the users or is taken out, and the others stay in their order.
  pub disconnect_user-IsServer : Handled u v (disconnect_user u s)
  unfolding disconnect_user
  disconnect_user-IsServer = elim (eq_cases (s.user_group u) null) [
    | inl (t, e) ↦ let (v', j, same) = logout_user-IsServer u i mem in rw t (v', j, inr same)
    | inr (t, ne) ↦ rw t (_, leave_group-IsServer u i mem ne, inl refl)
  ]

  pub send_scan_results-IsServer : (stale : Bytes) → Handled u v (send_scan_results stale u s)
  unfolding send_scan_results
  send_scan_results-IsServer stale = elim (eq_cases (s.user_group u) null) [
    | inl (t, e) ↦ rw t (v, IsServerBut-spared s.user _ i, inl refl)
    | inr (t, ne) ↦ let (v', j, same) = logout_user-IsServer u i mem in rw t (v', j, inr same)
  ]

  pub spread_message-IsServer : (message : Bytes) → Handled u v (spread_message u message s)
  unfolding spread_message
  spread_message-IsServer message = elim (eq_cases (s.user_group u) null) [
    | inl (t, e) ↦ let (v', j, same) = logout_user-IsServer u i mem in rw t (v', j, inr same)
    | inr (t, ne) ↦ rw t (v, IsServerBut-spared s.user _ i, inl refl)
  ]
