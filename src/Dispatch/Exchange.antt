-- ===== src/Dispatch/Exchange.antt =====
-- `deliver` of internal/dispatch/dispatch.go with `doRequest` in place of its result: the request that
-- goes out, the answer, and what it does to the task.
use rc_wnzzer.Base.{
  ◌+◌, ◌≡◌, ◌≢◌, ◌⊎◌, refl, sym, subst, ◌∙◌, inl, inr, ap, Bytes, bytes, Option, Option-cases, none,
  some, [], arith,
}
use rc_wnzzer.Base.Table.{lookup}
use rc_wnzzer.Model.{Task, dead}
use rc_wnzzer.Store.Codec.{Codec}
use rc_wnzzer.Queue.State.{Queue}
use rc_wnzzer.Api.Auth.{format_int}
use rc_wnzzer.Dispatch.RetryAfter.{pos}
use rc_wnzzer.Dispatch.Outcome.{classify, bad_request_spec, permanent_reason}
use rc_wnzzer.Dispatch.Deliver.{Limits, Reply, Attempt, deliver}
use rc_wnzzer.Dispatch.Deliver.Settles.{Settled, deliver-Settled}
use rc_wnzzer.Dispatch.Request.{
  Request, Sent, decode_body, method_of, get_header, request_headers, reply_of, bad_request,
  do_request, request_headers-own,
}

module _ (canon : Bytes → Bytes) (base64 : Bytes → Option Bytes) (undecodable : Bytes)
    (refuses : Bytes → Bytes → Option Bytes) (send : Request → Sent) (c : Codec) (l : Limits)
    (a : Attempt) where
  -- The attempt on a task, with its own number.
  abbrev pub attempt_on : Task → Attempt
  attempt_on t = record a {
    reply = do_request canon base64 undecodable refuses send t (t.attempts + 1);
  }

  -- `deliver`; the reply of the argument is not read.
  unfoldable pub exchange : Bytes → Queue → Queue
  exchange id q = elim (lookup id q.tasks) [ none ↦ q | some t ↦ deliver c l (attempt_on t) id q ]

  abbrev pub request_of : Task → Bytes → Request
  request_of t body = record {
    method = method_of canon t.target;
    url = t.target.url;
    body = body;
    headers = request_headers canon t (t.attempts + 1);
  }

  -- A task that cannot be made a request of is dead for that.
  abbrev pub Unsendable : Task → Task → Type 0
  Unsendable t t' =
      ((decode_body base64 t.target ≡ none)
        ⊎ (refuses (method_of canon t.target) t.target.url ≢ none))
      × (t'.state ≡ dead)
      × (t'.dead_reason ≡ bytes "bad_request_spec")

  -- The request that went out, with the number that the task has afterwards, and the judgement on the
  -- answer to it.
  pub record Exchanged (t t' : Task) : Type 0 where
    pub body : Bytes
    pub decoded : decode_body base64 t.target ≡ some body
    pub names : get_header canon (bytes "X-Notify-Id") (request_of t body).headers ≡ t.id
    pub numbers :
        get_header canon (bytes "X-Notify-Attempt") (request_of t body).headers
        ≡ format_int (pos t'.attempts)
    pub agent : get_header canon (bytes "User-Agent") (request_of t body).headers ≢ []
    pub settled :
        let r = reply_of canon (send (request_of t body)) in Settled l r.code r.err t (some t')

  abbrev pub Delivered : Task → Option Task → Type 0
  Delivered t none = ⊥
  Delivered t (some t') = Unsendable t t' ⊎ Exchanged t t'

  -- What `do_request` returns, and why.
  replied :
      (t : Task)
      → ((msg : Bytes) × ((decode_body base64 t.target ≡ none)
            ⊎ (refuses (method_of canon t.target) t.target.url ≢ none))
          × (do_request canon base64 undecodable refuses send t (t.attempts + 1)
              ≡ bad_request canon msg))
        ⊎ ((body : Bytes) × (decode_body base64 t.target ≡ some body)
            × (do_request canon base64 undecodable refuses send t (t.attempts + 1)
                ≡ reply_of canon (send (request_of t body))))
  unfolding do_request
  replied t = elim (Option-cases (decode_body base64 t.target)) [
    | inl e ↦ inl (undecodable, inl e, rw (e, do_request) refl)
    | inr (body, e) ↦ elim (Option-cases (refuses (method_of canon t.target) t.target.url)) [
      | inr (msg, f) ↦ inl (msg, inr (λ n. ground (arith, f, n)), rw (e, f, do_request) refl)
      | inl f ↦ inr (body, e, rw (e, f, do_request) refl)
    ]
  ]

  module _ (t : Task) (unlike : canon (bytes "X-Notify-Id") ≢ canon (bytes "X-Notify-Attempt"))
      (id_agent : canon (bytes "X-Notify-Id") ≢ canon (bytes "User-Agent"))
      (number_agent : canon (bytes "X-Notify-Attempt") ≢ canon (bytes "User-Agent")) where
    unsent :
        (msg : Bytes) (o : Option Task)
        → ((decode_body base64 t.target ≡ none)
            ⊎ (refuses (method_of canon t.target) t.target.url ≢ none))
        → Settled l 0 (some bad_request_spec) t o
        → Delivered t o
    unfolding classify permanent_reason
    unsent msg none why h = h
    unsent msg (some t') why h = inl (why, h.2.0, h.2.1)

    sent :
        (body : Bytes) (o : Option Task)
        → decode_body base64 t.target ≡ some body
        → (let r = reply_of canon (send (request_of t body)) in Settled l r.code r.err t o)
        → Delivered t o
    sent body none e h = h
    sent body (some t') e h =
        let own = request_headers-own canon t (t.attempts + 1) unlike id_agent number_agent in
        inr (record {
          body = body;
          decoded = e;
          names = own.0;
          numbers = own.1 ∙ ap (λ n. format_int (pos n)) (sym h.0);
          agent = own.2;
          settled = h;
        })

    -- A delivery of a task that the queue holds either finds that no request can be made of it, and
    -- the task is dead for that; or sends one request, which carries the task's id and the number of
    -- attempts that the task has afterwards, and a User-Agent, and the task is settled by the answer to
    -- that request, if the names of the three headers are distinct.
    pub exchange-Delivered :
        (id : Bytes) (q : Queue)
        → lookup id q.tasks ≡ some t
        → Delivered t (lookup id (exchange id q).tasks)
    unfolding exchange
    exchange-Delivered id q at =
        let h = deliver-Settled c l (attempt_on t) id t q at in
        let o = lookup id (deliver c l (attempt_on t) id q).tasks in
        rw (at, exchange)
          (elim (replied t) [
            | inl (msg, why, e) ↦
                unsent msg o why (subst (λ (r : Reply). Settled l r.code r.err t o) e h)
            | inr (body, d, e) ↦
                sent body o d (subst (λ (r : Reply). Settled l r.code r.err t o) e h)
          ])
