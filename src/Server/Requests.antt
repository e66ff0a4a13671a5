-- ===== src/Server/Requests.antt =====
-- internal/server/http.go: what requests change, and whom updates reach.
use native.Mathlib.Decide.{dec_lt}
use soundswamp.Prelude.{
  ℕ, zero, suc, ◌≤◌, ◌<◌, ◌≡◌, refl, ◌⊎◌, inl, inr, some, List, [], ◌∷◌, ◌++◌, arith, length,
  get_elem?, length-append,
}
use soundswamp.Prelude.Table.{string_eq}
use soundswamp.Prelude.Float.{Float}
use soundswamp.Server.{Server}
use soundswamp.Server.Http.{WsConn, WebSocketHub, offer, broadcast}

-- Each client of the hub after a broadcast: the message is the last that waits for it if its buffer had
-- room, and else its buffer is as it was; no buffer grows beyond its capacity.
pub broadcast_offers :
    (bytes : List ℕ) (i : ℕ) (c : WsConn) (hub : WebSocketHub)
    → get_elem? hub i ≡ some c
    → length c.send ≤ c.capacity
    → (c' : WsConn) × (get_elem? (broadcast (some bytes) hub) i ≡ some c')
      × (length c'.send ≤ c'.capacity)
      × (((length c.send < c.capacity) × (c'.send ≡ c.send ++ (bytes ∷ [])))
          ⊎ ((length c.send ≡ c.capacity) × (c' ≡ c)))
unfolding broadcast
broadcast_offers bytes i c [] e fits = cc e
broadcast_offers bytes (suc i) c (x ∷ hub) e fits = broadcast_offers bytes i c hub e fits
broadcast_offers bytes zero c (x ∷ hub) e fits = elim (dec_lt (length c.send) c.capacity) [
  | yes room ↦ (
    record c { send = c.send ++ (bytes ∷ []) },
    unfold offer in ground (arith, e),
    omega (arith, length-append c.send (bytes ∷ [])),
    inl (room, refl),
  )
  | no full ↦ (c, unfold offer in ground (arith, e), fits, inr (omega arith, refl))
]
