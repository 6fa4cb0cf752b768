-- ===== src/Logic/Traffic/Coming.antt =====
-- The messages of a session that are still to come.
use mathlib.Core.List.{map-append}
use asio_learn.Base.{
  ℕ, ◌≤◌, ◌<◌, ◌≡◌, refl, ap, ◌∙◌, Bool, true, List, [], ◌∷◌, ◌++◌, Option, some, map, arith,
  length, update, by_key, ==_refl, length-map, append_assoc, length-append,
}
use asio_learn.Wire.Endian.{Host}
use asio_learn.Wire.{max_sendque}
use asio_learn.Logic.Reader.{Reader, handle_read}
use asio_learn.Logic.Reader.Frames.{Message, Place, Carries, Stands}
use asio_learn.Logic.Reader.Deliver.{Delivered, handle_read-Delivered}
use asio_learn.Logic.Reader.Stream.{Arrives, done, chunk}
use asio_learn.Logic.System.{Json, LogicNode}
use asio_learn.Logic.Traffic.{Event, arrives}
use asio_learn.Logic.Traffic.Inbox.{reads_of, logic_node, logic_nodes}
use asio_learn.Logic.Traffic.Owed.{AllServable}

pub no_reads :
    {h : Host} {p q : Place} {cs : List (List ℕ)} {ms : List Message}
    → Arrives h p cs ms q
    → [] ≡ map some cs
    → ms ≡ []
no_reads done e = refl
no_reads (chunk l carries later) e = absurd (cc e)

-- The first chunk that arrives.
next_read :
    {h : Host} {p q : Place} {cs : List (List ℕ)} {ms : List Message} (c : Option (List ℕ))
    (rest : List (Option (List ℕ)))
    → Arrives h p cs ms q
    → c ∷ rest ≡ map some cs
    → (c0 : List ℕ) × (cs' : List (List ℕ)) × (ms0 : List Message) × (ns : List Message)
      × (p' : Place) × (c ≡ some c0)
      × (rest ≡ map some cs')
      × (ms ≡ ms0 ++ ns)
      × (0 < length c0)
      × Carries h p c0 ms0 p'
      × Arrives h p' cs' ns q
next_read c rest done e = absurd (cc e)
next_read c rest (chunk {c = c0} {cs = cs} {ms = ms} {ns = ns} {q = p'} l carries later) e =
    (c0, cs, ms, ns, p', cc e, cc e, refl, l, carries, later)

module _ (h : Host) (j : Json) where
  AllServable-split :
      (ms ns : List LogicNode)
      → AllServable h j (ms ++ ns)
      → AllServable h j ms × AllServable h j ns
  AllServable-split [] ns a = (tt, a)
  AllServable-split (m ∷ ms) ns a =
      let (front, behind) = AllServable-split ms ns a.1 in ((a.0, front), behind)

  -- What is still to come of the messages `total` of a session, of which `made` have come.
  abbrev pub Coming :
      Reader → Bool → List (Option (List ℕ)) → ℕ → List LogicNode → List Message → Type 0
  Coming r reading reads u made total =
      (p : Place) × (q : Place) × (cs : List (List ℕ)) × (ms : List Message) × (reads ≡ map some cs)
      × Arrives h p cs ms q
      × Stands r p
      × (reading ≡ true)
      × (made ++ logic_nodes u ms ≡ logic_nodes u total)

  pub made-few :
      (u : ℕ) (made : List LogicNode) (ms total : List Message)
      → made ++ logic_nodes u ms ≡ logic_nodes u total
      → length total ≤ max_sendque
      → length made ≤ max_sendque
  made-few u made ms total e few = omega (
    arith,
    ap length e,
    length-append made (logic_nodes u ms),
    length-map (logic_node u) total,
    few,
  )

  -- The messages that come next can be served.
  next-AllServable :
      (u : ℕ) (made : List LogicNode) (ms ns total : List Message)
      → made ++ logic_nodes u (ms ++ ns) ≡ logic_nodes u total
      → AllServable h j (logic_nodes u total)
      → AllServable h j (logic_nodes u ms)
  next-AllServable u made ms ns total e s =
      let behind = (AllServable-split made (logic_nodes u (ms ++ ns)) (rw e s)).1 in
      (AllServable-split (logic_nodes u ms) (logic_nodes u ns)
        (rw (map-append (logic_node u) ms) at behind)).0

  -- The read of session `v` that comes next.
  pub next-Coming :
      (readers : ℕ → Reader) (reading : ℕ → Bool) (made : ℕ → List LogicNode)
      (total : ℕ → List Message) (v : ℕ) (c : Option (List ℕ)) (es : List Event)
      → ((u : ℕ) → AllServable h j (logic_nodes u (total u)))
      → ((u : ℕ)
          → Coming (readers u) (reading u) (reads_of u (arrives v c ∷ es)) u (made u) (total u))
      → (c0 : List ℕ) × (ms : List Message) × (q : Place) × (c ≡ some c0)
        × (reading v ≡ true)
        × Delivered [] ms q (handle_read h (readers v) (some c0))
        × AllServable h j (logic_nodes v ms)
        × ((u : ℕ)
            → Coming
                (update readers v (handle_read h (readers v) (some c0)).reader u)
                (update reading v true u)
                (reads_of u es)
                u
                (update made v (made v ++ logic_nodes v ms) u)
                (total u))
  next-Coming readers reading made total v c es serve coming =
      let (p, q, cs, ms, e, a, st, on, all) = coming v in
      let (c0, cs', ms0, ns, p', some_c, rest, split, l, carries, later) =
        next_read c (reads_of v es) a (rw (==_refl v) at e) in
      let o = handle_read h (readers v) (some c0) in
      let d : Delivered [] ms0 p' o = handle_read-Delivered h (readers v) carries st l in
      let stands : Stands o.reader p' = d.2 in
      let all' = rw split at all in
      let nodes = logic_nodes v ms0 in
      (
        c0,
        ms0,
        p',
        some_c,
        on,
        d,
        next-AllServable v (made v) ms0 ns (total v) all' (serve v),
        λ u.
            by_key
              (λ u.
                Coming (update readers v o.reader u) (update reading v true u) (reads_of u es) u
                  (update made v (made v ++ nodes) u) (total u))
              v u
              (rw (==_refl v) (
                p',
                q,
                cs',
                ns,
                rest,
                later,
                stands,
                refl,
                append_assoc (made v) nodes (logic_nodes v ns)
                    ∙ (rw (map-append (logic_node v) ms0) at all'),
              ))
              (λ other. rw other (rw other at (coming u))),
      )
