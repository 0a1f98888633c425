-- ===== src/ThreadPool/Queue.antt =====
-- The linked list is a queue: `threadpool_submit` appends, a worker takes the oldest job.
use mathlib.Core.List.{map-append}
use nerv_fs.Base.{
  ◌+◌, ap₂, ℕ, ◌≡◌, refl, sym, ap, ◌∙◌, ◌≢◌, Option, none, some, List, [], ◌∷◌, ◌++◌, map, All,
  arith, ==_refl, if◌then◌else◌,
}
use nerv_fs.Os.{History}
use nerv_fs.Protocol.Header.{Header}
use nerv_fs.ThreadPool.{
  Job, Node, Pool, put_node, threadpool_submit, sleeps, exits, takes, worker_turn, link, take_head,
  tail_after,
}

-- The nodes from `p` on, one after the other, are `ps`.
abbrev pub Segment : (ℕ → Node) → Option ℕ → List ℕ → Type 0
Segment node head [] = head ≡ none
Segment node head (p ∷ ps) = (head ≡ some p) × Segment node (node p).next ps

abbrev Distinct : List ℕ → Type 0
Distinct [] = Unit
Distinct (p ∷ ps) = All (λ q. p ≢ q) ps × Distinct ps

abbrev last : ℕ → List ℕ → ℕ
last p [] = p
last p (q ∷ ps) = last q ps

abbrev last_of : List ℕ → Option ℕ
last_of [] = none
last_of (p ∷ ps) = some (last p ps)

-- The queue's nodes in order. The addresses are all different, and the tail pointer is the last.
pub record IsQueue (s : Pool) (ps : List ℕ) : Type 0 where
  pub chain : Segment s.node s.head ps
  pub distinct : Distinct ps
  pub tail_last : s.tail ≡ last_of ps

abbrev pub jobs : Pool → List ℕ → List Job
jobs s = map (λ p. (s.node p).job)

-- The pool's queue holds these jobs, the oldest first.
abbrev pub Represents : Pool → List Job → Type 0
Represents s js = (ps : List ℕ) × IsQueue s ps × (jobs s ps ≡ js)

-- An address that `malloc` returns is not that of a node in the queue.
abbrev pub IsFreshFor : ℕ → Pool → Type 0
IsFreshFor p s = (ps : List ℕ) → IsQueue s ps → All (λ q. q ≢ p) ps

cons-injective {ℓ} : {A : Type ℓ} {x y : A} {xs ys : List A} → x ∷ xs ≡ y ∷ ys → (x ≡ y) × (xs ≡ ys)
cons-injective e = (cc, cc)

last_of-append : (ps : List ℕ) (p : ℕ) → last_of (ps ++ p ∷ []) ≡ some p
last_of-append [] p = refl
last_of-append (a ∷ []) p = refl
last_of-append (a ∷ b ∷ ps) p = last_of-append (b ∷ ps) p

All-snoc : (P : ℕ → Type 0) (ps : List ℕ) (p : ℕ) → All P ps → P p → All P (ps ++ p ∷ [])
All-snoc P [] p h k = (k, tt)
All-snoc P (a ∷ ps) p h k = (h.0, All-snoc P ps p h.1 k)

Distinct-append :
    (ps : List ℕ) (p : ℕ) → Distinct ps → All (λ q. q ≢ p) ps → Distinct (ps ++ p ∷ [])
Distinct-append [] p d f = (tt, tt)
Distinct-append (a ∷ ps) p d f = (All-snoc _ ps p d.0 f.0, Distinct-append ps p d.1 f.1)

last-ne : (a b : ℕ) (ps : List ℕ) → All (λ q. a ≢ q) (b ∷ ps) → a ≢ last b ps
last-ne a b [] h = h.0
last-ne a b (c ∷ ps) h = last-ne a c ps h.1

-- A write to a node that is not in the list leaves the list as it is.
put_node-Segment :
    (node : ℕ → Node) (p : ℕ) (n : Node) (head : Option ℕ) (ps : List ℕ)
    → All (λ q. q ≢ p) ps
    → Segment node head ps
    → Segment (put_node node p n) head ps
put_node-Segment node p n head [] f s = s
put_node-Segment node p n head (a ∷ ps) f s =
    (s.0, ground (arith, f.0, put_node-Segment node p n (node a).next ps f.1 s.1))

put_node-jobs :
    (node : ℕ → Node) (p : ℕ) (n : Node) (ps : List ℕ)
    → All (λ q. q ≢ p) ps
    → map (λ q. (put_node node p n q).job) ps ≡ map (λ q. (node q).job) ps
put_node-jobs node p n [] f = refl
put_node-jobs node p n (a ∷ ps) f = ground (arith, put_node-jobs node p n ps f.1)

-- A write to a node's pointer leaves the jobs as they are.
relink-jobs :
    (node : ℕ → Node) (p : ℕ) (next : Option ℕ) (ps : List ℕ)
    → map (λ q. (put_node node p (record (node p) { next = next }) q).job) ps
      ≡ map (λ q. (node q).job) ps
relink-jobs node p next [] = refl
relink-jobs node p next (a ∷ ps) = ground (arith, relink-jobs node p next ps)

link-Segment :
    (node : ℕ → Node) (p a : ℕ) (ps : List ℕ) (head : Option ℕ)
    → (node p).next ≡ none
    → Segment node head (a ∷ ps)
    → Distinct (a ∷ ps)
    → All (λ q. q ≢ p) (a ∷ ps)
    → Segment
        (put_node node (last a ps) (record (node (last a ps)) { next = some p }))
        head
        (a ∷ ps ++ p ∷ [])
link-Segment node p a [] head e s d f = (s.0, (ground arith, ground arith))
link-Segment node p a (b ∷ ps) head e s d f =
    let apart = last-ne a b ps d.0 in
    (s.0, ground (arith, apart, link-Segment node p b ps (node a).next e s.1 d.1 f.1))

module _ (s : Pool) (p client_fd : ℕ) (header : Header) (h : History) where
  abbrev new_job : Job
  new_job = record { client_fd = client_fd; header = header }

  abbrev filled : ℕ → Node
  filled = put_node s.node p (record { job = new_job; next = none })

  submit_empty :
      s.tail ≡ none
      → (threadpool_submit (some p) client_fd header s h).0
        ≡ record s { head = some p; tail = some p; node = filled; signals = s.signals + 1 }
  unfolding threadpool_submit
  submit_empty e =
      ap (λ t. record (link p t (record s { node = filled })) { signals = s.signals + 1 }) e

  submit_linked :
      (q : ℕ)
      → s.tail ≡ some q
      → (threadpool_submit (some p) client_fd header s h).0 ≡ record s {
        tail = some p;
        node = put_node filled q (record (filled q) { next = some p });
        signals = s.signals + 1;
      }
  unfolding threadpool_submit
  submit_linked q e =
      ap (λ t. record (link p t (record s { node = filled })) { signals = s.signals + 1 }) e

  submit-IsQueue :
      (ps : List ℕ)
      → IsQueue s ps
      → All (λ q. q ≢ p) ps
      → IsQueue (threadpool_submit (some p) client_fd header s h).0 (ps ++ p ∷ [])
  submit-IsQueue [] q f =
      rw (submit_empty q.tail_last)
        (record { chain = (refl, rw (==_refl p)); distinct = (tt, tt); tail_last = refl })
  submit-IsQueue (a ∷ ps) q f = rw (submit_linked (last a ps) q.tail_last) (record {
    chain =
        link-Segment filled p a ps s.head (rw (==_refl p))
          (put_node-Segment s.node p _ s.head (a ∷ ps) f q.chain) q.distinct f;
    distinct = Distinct-append (a ∷ ps) p q.distinct f;
    tail_last = sym (last_of-append (a ∷ ps) p);
  })

  filled-jobs :
      (ps : List ℕ)
      → All (λ q. q ≢ p) ps
      → map (λ q. (filled q).job) (ps ++ p ∷ []) ≡ jobs s ps ++ new_job ∷ []
  filled-jobs ps f =
      map-append (λ q. (filled q).job) ps (p ∷ [])
      ∙ ap₂ ◌++◌ (put_node-jobs s.node p _ ps f) (rw (==_refl p))

  submit-jobs :
      (ps : List ℕ)
      → IsQueue s ps
      → All (λ q. q ≢ p) ps
      → jobs (threadpool_submit (some p) client_fd header s h).0 (ps ++ p ∷ [])
        ≡ jobs s ps ++ new_job ∷ []
  submit-jobs [] q f = rw (submit_empty q.tail_last) (filled-jobs [] f)
  submit-jobs (a ∷ ps) q f =
      ap (λ s'. jobs s' (a ∷ ps ++ p ∷ [])) (submit_linked (last a ps) q.tail_last)
      ∙ relink-jobs filled (last a ps) (some p) (a ∷ ps ++ p ∷ [])
      ∙ filled-jobs (a ∷ ps) f

  -- Given a node whose address is none of the queue's, a submitted job goes to the end of the queue,
  -- behind the jobs that are there.
  pub submit-Represents :
      (js : List Job)
      → Represents s js
      → IsFreshFor p s
      → Represents (threadpool_submit (some p) client_fd header s h).0 (js ++ new_job ∷ [])
  submit-Represents js (ps, q, e) f = (
    ps ++ p ∷ [],
    submit-IsQueue ps q (f ps q),
    submit-jobs ps q (f ps q) ∙ ap (λ js. js ++ new_job ∷ []) e,
  )

tail_after-last :
    (node : ℕ → Node) (a : ℕ) (ps : List ℕ) (next tail : Option ℕ)
    → Segment node next ps
    → tail ≡ some (last a ps)
    → tail_after next tail ≡ last_of ps
tail_after-last node a [] next tail c e = rw c
tail_after-last node a (b ∷ ps) next tail c e = rw c.0 e

-- A worker that finds jobs takes the oldest and leaves the others, in order.
pub worker_turn-takes :
    (s : Pool) (j : Job) (js : List Job)
    → Represents s (j ∷ js)
    → (s' : Pool) × (worker_turn s ≡ takes j s') × Represents s' js × (s'.running ≡ s.running)
unfolding worker_turn
worker_turn-takes s j js ([], q, e) = absurd (cc e)
worker_turn-takes s j js (a ∷ ps, q, e) =
    let s' : Pool = record s { head = (s.node a).next; tail = tail_after (s.node a).next s.tail } in
    let (job_eq, jobs_eq) = cons-injective e in
    (
      s',
      ap (λ head. take_head head s) q.chain.0 ∙ ap (λ job. takes job s') job_eq,
      (
        ps,
        record {
          chain = q.chain.1;
          distinct = q.distinct.1;
          tail_last = tail_after-last s.node a ps (s.node a).next s.tail q.chain.1 q.tail_last;
        },
        jobs_eq,
      ),
      refl,
    )

-- A worker that finds no job sleeps while the pool runs, and leaves its loop once it is stopped.
pub worker_turn-empty :
    (s : Pool) → Represents s [] → worker_turn s ≡ (if s.running then sleeps else exits)
unfolding worker_turn
worker_turn-empty s ([], q, e) = ap (λ head. take_head head s) q.chain
worker_turn-empty s (a ∷ ps, q, e) = absurd (cc e)
