-- ===== src/Connections/Statuses.antt =====
-- What ConnectTopologies and DisconnectTopologies return.
use inferno_windows.Prelude.{
  ℕ, ◌≡◌, ap, sym, ◌∙◌, true, Bool-cases, inl, inr, List, [], ◌∷◌, ◌++◌, if◌then◌else◌, if_true,
  if_false,
}
use inferno_windows.Status.{NtStatus, success, nt_success}
use inferno_windows.Connections.{
  Connection, Link, Ports, link_of, unregister_link, disconnect_all, disconnect_topologies,
}

nt_success-last : (s : NtStatus) → nt_success (if nt_success s then success else s) ≡ nt_success s
nt_success-last s = elim (Bool-cases (nt_success s)) [
  | inl good ↦ ap nt_success (if_true (nt_success s) _ _ good) ∙ sym good
  | inr bad ↦ ap nt_success (if_false (nt_success s) _ _ bad)
]

disconnect_all-last :
    (p : Ports) (topology wave : ℕ) (status : NtStatus) (cs : List Connection) (c : Connection)
    (links : List Link)
    → nt_success (disconnect_all p topology wave status (cs ++ (c ∷ [])) links).0
      ≡ nt_success (
          p.unregister (link_of topology wave c) (disconnect_all p topology wave status cs links).1)
unfolding disconnect_all
disconnect_all-last p topology wave status [] c links =
    nt_success-last (p.unregister (link_of topology wave c) links)
disconnect_all-last p topology wave status (e ∷ cs) c links =
    let next = p.unregister (link_of topology wave e) links in
    disconnect_all-last p topology wave (if nt_success next then success else next) cs c
      (unregister_link next (link_of topology wave e) links)

-- With the interface for it, DisconnectTopologies succeeds if and only if the last connection of the
-- table can be unregistered, whether or not the ones before it could be.
pub disconnect_topologies-last :
    (p : Ports) (topology wave : ℕ) (cs : List Connection) (c : Connection) (links : List Link)
    → nt_success p.query ≡ true
    → nt_success (disconnect_topologies p topology wave (cs ++ (c ∷ [])) links).0
      ≡ nt_success (
          p.unregister (link_of topology wave c) (disconnect_topologies p topology wave cs links).1)
unfolding disconnect_topologies
disconnect_topologies-last p topology wave cs c links query =
    ap (λ (x : NtStatus × List Link). nt_success x.0) (if_true (nt_success p.query) _ _ query)
    ∙ disconnect_all-last p topology wave p.query cs c links
    ∙ ap (λ (x : NtStatus × List Link). nt_success (p.unregister (link_of topology wave c) x.1))
        (sym (if_true (nt_success p.query) _ _ query))
