-- ===== src/Queue/Stream/Leases.antt =====
-- The connections of a node that a read holds.
use ansuman_nsfw_detection_s.Base.{ℕ, ◌+◌, ◌-◌, ◌≡◌, refl, ap, ◌∙◌, String, List, arith}
use ansuman_nsfw_detection_s.Errors.{Outcome, ok, raised, PyException}
use ansuman_nsfw_detection_s.Effects.{after, ensured, finally}
use ansuman_nsfw_detection_s.Queue.Stream.{Node, Reply, answer_of, read_from_node}

-- The connections of a node that are given out: `acquire_connection` gives out one unless it raises,
-- `release` takes one back, and the other calls keep them.
pub record Leases {E : Type 0} (node : Node E) : Type 0 where
  pub leased : E → ℕ
  pub acquired : (e e' : E) → node.acquire_connection e ≡ (ok tt, e') → leased e' ≡ leased e + 1
  pub not_acquired :
      (x : PyException) (e e' : E)
      → node.acquire_connection e ≡ (raised x, e')
      → leased e' ≡ leased e
  pub disconnected : (e : E) → leased (node.disconnect_if_needed e).1 ≡ leased e
  pub sent :
      (command : List String) (e : E) → leased (node.send_packed_command command e).1 ≡ leased e
  pub read : (e : E) → leased (node.read_response e).1 ≡ leased e
  pub released : (e : E) → leased (node.release e).1 ≡ leased e - 1

module _ {E : Type 0} (node : Node E) (command : List String) where
  abbrev after_send : Outcome (Unit {0}) × E → ℕ
  after_send (ok _, e) = 0
  after_send (raised x, e) = 1

  abbrev after_disconnect : Outcome (Unit {0}) × E → ℕ
  after_disconnect (ok _, e) = after_send (node.send_packed_command command e)
  after_disconnect (raised x, e) = 1

  abbrev after_acquire : Outcome (Unit {0}) × E → ℕ
  after_acquire (ok _, e) = after_disconnect (node.disconnect_if_needed e)
  after_acquire (raised x, e) = 0

  -- The connections that a read keeps for good: one if it is given out and the command is not sent.
  abbrev pub leaked : E → ℕ
  leaked e = after_acquire (node.acquire_connection e)

  module _ (laws : Leases node) where
    release_end :
        {A : Type 0} (r : Outcome A × E) (s : Outcome (Unit {0}) × E)
        → laws.leased s.1 ≡ laws.leased r.1 - 1
        → laws.leased (ensured r (λ _. s)).1 ≡ laws.leased r.1 - 1
    release_end (ok a, e) (ok b, e') h = h
    release_end (ok a, e) (raised y, e') h = h
    release_end (raised x, e) (ok b, e') h = h
    release_end (raised x, e) (raised y, e') h = h

    -- `release` runs, whatever `disconnect_if_needed` does.
    close_end :
        (d : Outcome (Unit {0}) × E) → laws.leased (ensured d node.release).1 ≡ laws.leased d.1 - 1
    close_end (ok a, e) = release_end (ok a, e) (node.release e) (laws.released e)
    close_end (raised x, e) = release_end (raised x, e) (node.release e) (laws.released e)

    answer_end :
        (r : Outcome Reply × E)
        → laws.leased (ensured r (finally node.disconnect_if_needed node.release)).1
          ≡ laws.leased r.1 - 1
    answer_end (ok a, e) =
        release_end (ok a, e) (finally node.disconnect_if_needed node.release e)
          (close_end (node.disconnect_if_needed e) ∙ ap (λ n. n - 1) (laws.disconnected e))
    answer_end (raised x, e) =
        release_end (raised x, e) (finally node.disconnect_if_needed node.release e)
          (close_end (node.disconnect_if_needed e) ∙ ap (λ n. n - 1) (laws.disconnected e))

    send_end :
        (n : ℕ) (s : Outcome (Unit {0}) × E)
        → laws.leased s.1 ≡ n + 1
        → laws.leased (after s (λ _. answer_of node)).1 ≡ n + after_send s
    unfolding answer_of
    send_end n (ok _, e) h = omega (arith, answer_end (node.read_response e), laws.read e)
    send_end n (raised x, e) h = h

    disconnect_end :
        (n : ℕ) (d : Outcome (Unit {0}) × E)
        → laws.leased d.1 ≡ n + 1
        → laws.leased
            (after d (λ _ e. after (node.send_packed_command command e) (λ _. answer_of node))).1
          ≡ n + after_disconnect d
    disconnect_end n (ok _, e) h =
        send_end n (node.send_packed_command command e) (laws.sent command e ∙ h)
    disconnect_end n (raised x, e) h = h

    -- What a node gives out and takes back being as its laws say, a read from it gives back the connection that it takes, whatever the answer is and whatever raises after the command was sent; it keeps the connection for good exactly if one is given out and the connection's check or the sending raises.
    pub read_from_node-leased :
        (e : E) → laws.leased (read_from_node node command e).1 ≡ laws.leased e + leaked e
    unfolding read_from_node
    read_from_node-leased e = acquire_end e (node.acquire_connection e) refl
      where
        acquire_end :
            (e : E) (a : Outcome (Unit {0}) × E)
            → node.acquire_connection e ≡ a
            → laws.leased (read_from_node node command e).1 ≡ laws.leased e + after_acquire a
        acquire_end e (ok _, e') h =
            rw (h, read_from_node)
              (disconnect_end (laws.leased e) (node.disconnect_if_needed e')
                (laws.disconnected e' ∙ laws.acquired e e' h))
        acquire_end e (raised x, e') h =
            rw (h, read_from_node) (omega (arith, laws.not_acquired x e e' h))
