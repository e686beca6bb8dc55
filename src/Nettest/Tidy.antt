-- ===== src/Nettest/Tidy.antt =====
-- internal/nettest/nettest.go: every way out of the harness leaves the clean-ups that undo what it
-- made.
use pktc.Common.{
  ◌≡◌, refl, ap, ◌∙◌, ◌==◌, not, sym, Bool, true, false, Text, bytes, text_eq, List, [], ◌∷◌, ◌++◌,
  if◌then◌else◌,
}
use pktc.Nettest.{
  Run, Host, Test, M, because, failed_text, ◌>>◌, succeeded, pure, skip, fail, cleanup, exec,
  exec_or, require, run, must_run,
}
use pktc.Nettest.Pair.{
  full_name, add_namespace, new, new_empty, must_host, add_wire, set_ends, wire_a, wire_b,
  set_netns, new_pair,
}
use pktc.Nettest.Undo.{
  undo-nothing, Tidies-bind, Tidies-if, pure-Tidies, skip-Tidies, fail-Tidies, undo-made,
  undo-failed, undo_of, IsTidy, Settles, on_value, on_skip, Tidies,
}

module _ {W : Type 0} (h : Host W) where
  -- a command that makes nothing
  exec-Tidies : (argv : List Text) → undo_of argv ≡ [] → Tidies (exec h argv)
  unfolding exec
  exec-Tidies argv e t ht =
      on_value (ht ∙ sym (undo-nothing argv (succeeded (h.exec argv t.world).0.failure) t.ran e))

  exec_or-Tidies :
      (argv : List Text) (otherwise : Run → M W (Unit {0}))
      → undo_of argv ≡ []
      → ((r : Run) → Tidies (otherwise r))
      → Tidies (exec_or h argv otherwise)
  unfolding exec_or
  exec_or-Tidies argv otherwise e k =
      Tidies-bind _
        (λ r. Tidies-if (succeeded r.failure) (pure tt) (otherwise r) (pure-Tidies tt) (k r))
        (exec-Tidies argv e)

  -- what follows a command that makes something, where it succeeds and where it fails
  made-Settles :
      (argv undone : List Text) (m : Text) (w : W) (b : Bool) (t : Test W)
      → undo_of argv ≡ undone ∷ []
      → IsTidy t
      → Settles IsTidy (
          ((if b then pure tt else skip m) >> cleanup undone)
            (record t { world = w; ran = (argv, b) ∷ t.ran }))
  made-Settles argv undone m w true t e ht =
      on_value (ap (λ cs. undone ∷ cs) ht ∙ sym (undo-made argv undone t.ran e))
  made-Settles argv undone m w false t e ht = on_skip (ht ∙ sym (undo-failed argv t.ran))

  make-Tidies :
      (argv undone : List Text) (why : Run → Text)
      → undo_of argv ≡ undone ∷ []
      → Tidies (exec_or h argv (λ r. skip (why r)) >> cleanup undone)
  unfolding exec_or exec
  make-Tidies argv undone why e t ht =
      made-Settles argv undone (why (h.exec argv t.world).0) (h.exec argv t.world).1
        (succeeded (h.exec argv t.world).0.failure) t e ht

  run-Tidies : (ns : Text) (argv : List Text) → Tidies (run h ns argv)
  unfolding run undo_of bytes text_eq
  run-Tidies ns argv = exec-Tidies _ refl

  must_run-Tidies : (ns : Text) (argv : List Text) → Tidies (must_run h ns argv)
  unfolding must_run
  must_run-Tidies ns argv =
      Tidies-bind _
        (λ r.
          Tidies-if (succeeded r.failure) (pure r.out) (fail (failed_text argv r))
            (pure-Tidies r.out) (fail-Tidies _))
        (run-Tidies ns argv)

  require-Tidies : Tidies (require h)
  unfolding require undo_of bytes text_eq
  require-Tidies = Tidies-if (not (h.euid == 0)) (skip _) _ (skip-Tidies _) (
      Tidies-if (not (h.has_program (bytes "ip"))) (skip _) _ (skip-Tidies _) (
        exec_or-Tidies _ (λ r. skip (because (bytes "namespaces unavailable") r)) refl
          λ r. skip-Tidies _))

  add_namespace-Tidies : (full : Text) → Tidies (add_namespace h full)
  unfolding add_namespace undo_of bytes text_eq
  add_namespace-Tidies full = make-Tidies _ _ (because (bytes "cannot create namespace")) refl

  add_wire-Tidies : (ta tb : Text) → Tidies (add_wire h ta tb)
  unfolding add_wire undo_of bytes text_eq
  add_wire-Tidies ta tb = make-Tidies _ _ (because (bytes "cannot create a veth pair")) refl

  must_host-Tidies : (argv : List Text) → undo_of argv ≡ [] → Tidies (must_host h argv)
  unfolding must_host
  must_host-Tidies argv e =
      exec_or-Tidies argv (λ r. fail (failed_text argv r)) e λ r. fail-Tidies _

  -- one command in a namespace, and what follows it
  must_run-then :
      {B : Type 0} (ns : Text) (argv : List Text) (m : M W B)
      → Tidies m
      → Tidies (must_run h ns argv >> m)
  must_run-then ns argv m hm = Tidies-bind (λ _. m) (λ _. hm) (must_run-Tidies ns argv)

  set_ends-Tidies : (ends : List (Text × Text × Text)) → Tidies (set_ends h ends)
  unfolding set_ends
  set_ends-Tidies [] = pure-Tidies tt
  set_ends-Tidies ((ns, from, addr) ∷ rest) =
      must_run-then ns _ _
        (must_run-then ns _ _ (must_run-then ns _ _ (must_run-then ns _ _ (set_ends-Tidies rest))))

  new_empty-Tidies : (name : Text) → Tidies (new_empty h name)
  unfolding new_empty
  new_empty-Tidies name =
      Tidies-bind _ (λ _. pure-Tidies _) (add_namespace-Tidies (full_name h name))

  new-Tidies : (name addr : Text) → Tidies (new h name addr)
  unfolding new
  new-Tidies name addr =
      Tidies-bind _
        (λ _.
          Tidies-bind _
            (λ _. must_run-then _ _ _ (must_run-then _ _ _ (must_run-then _ _ _ (pure-Tidies _))))
            (add_namespace-Tidies (full_name h name)))
        require-Tidies

  link_set : (dev ns : Text) → undo_of (set_netns dev ns) ≡ []
  unfolding undo_of bytes text_eq
  link_set dev ns = refl

  new_pair-Tidies : (name a_addr b_addr : Text) → Tidies (new_pair h name a_addr b_addr)
  unfolding new_pair
  new_pair-Tidies name a_addr b_addr =
      Tidies-bind _
        (λ _.
          Tidies-bind _
            (λ a.
              Tidies-bind _
                (λ b.
                  Tidies-bind _
                    (λ _.
                      Tidies-bind _
                        (λ _.
                          Tidies-bind _
                            (λ _.
                              Tidies-bind _
                                (λ _.
                                  pure-Tidies
                                    (record { a = a; b = b; a_addr = a_addr; b_addr = b_addr }))
                                (set_ends-Tidies
                                  ((a, wire_a h, a_addr) ∷ (b, wire_b h, b_addr) ∷ [])))
                            (must_host-Tidies _ (link_set (wire_b h) b)))
                        (must_host-Tidies _ (link_set (wire_a h) a)))
                    (add_wire-Tidies (wire_a h) (wire_b h)))
                (new_empty-Tidies (name ++ bytes "b")))
            (new_empty-Tidies (name ++ bytes "a")))
        require-Tidies

  -- Whichever way `New` and `NewPair` end, by a value, a skip or a failure, the clean-ups registered
  -- are then exactly the deletions of the namespaces and links that were made, the last made first, if they
  -- were so before.
  pub setup-IsTidy :
      (name addr peer_addr : Text) (t : Test W)
      → IsTidy t
      → Settles IsTidy (new h name addr t) × Settles IsTidy (new_pair h name addr peer_addr t)
  setup-IsTidy name addr peer_addr t ht =
      (new-Tidies name addr t ht, new_pair-Tidies name addr peer_addr t ht)
