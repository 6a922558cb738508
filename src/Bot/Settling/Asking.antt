-- ===== src/Bot/Settling/Asking.antt =====
-- Resolving a follow-up, as to the settlement (`resolve_followup` of src/main.rs).
use webex_generic_account_bo.Base.{
  ℕ, ◌≡◌, Bool, true, false, not, Option, none, some, List, Result, ok, err, Duration, arith,
  if◌then◌else◌, is_ok, ℤ,
}
use webex_generic_account_bo.Text.{Text}
use webex_generic_account_bo.Config.{RoomPolicy}
use webex_generic_account_bo.Policy.{MessageContext}
use webex_generic_account_bo.Webex.{HttpError, Message, WebexCallError}
use webex_generic_account_bo.Bot.Monad.{App, History, M, next}
use webex_generic_account_bo.Bot.Failures.{find_existing_message_by_marker}
use webex_generic_account_bo.Bot.Threads.{pages_of_created}
use webex_generic_account_bo.Bot.Followup.{
  Found, when_found, fetch_message, fetch_source, followup_forward, followup_reply_thread,
  is_read_only_event, finish_followup, followup_in_thread, resolve_followup,
  followup_candidate_matches, forward_thread, followup_output, followup_from_source,
  followup_listed, followup_of_parent,
}
use webex_generic_account_bo.Bot.Settling.Facts.{Quiet, Quiet-trans}

module _ (app : App) where
  -- A stretch that only asks: it succeeds, and it is quiet.
  pub record Asks {A : Type 0} (h : History) (out : Result HttpError A × History) : Type 0 where
    pub answered : is_ok out.0 ≡ true
    pub quiet : Quiet app.config h out.1

  next-Asks :
      {A B : Type 0} (h : History) (out : Result HttpError A × History) (f : A → M B)
      → Asks h out
      → ((a : A) (h' : History) → Asks h' (f a h'))
      → Asks h (next out.0 out.1 f)
  next-Asks h (err e, h') f q k = absurd (ground (arith, q.answered))
  next-Asks h (ok a, h') f q k = record {
    answered = (k a h').answered;
    quiet = Quiet-trans q.quiet (k a h').quiet;
  }

  when_found-Asks :
      {A B : Type 0} (r : Found A) (f : A → M (Found B)) (h : History)
      → ((a : A) (h' : History) → Asks h' (f a h'))
      → Asks h (when_found r f h)
  when_found-Asks (ok (some a)) f h k = k a h
  when_found-Asks (ok none) f h k = ground arith
  when_found-Asks (err e) f h k = ground arith

  fetch_message-Asks : (id : Text) (h : History) → Asks h (fetch_message app id h)
  unfolding fetch_message
  fetch_message-Asks id h = ground arith

  fetch_source-Asks :
      (root : Message) (id : Text) (h : History) → Asks h (fetch_source app root id h)
  unfolding fetch_source
  fetch_source-Asks root id h = ground arith

  pages-Asks : (d : Duration) (o : Option ℤ) (h : History) → Asks h (pages_of_created app d o h)
  unfolding pages_of_created
  pages-Asks d o h = ground arith

  if-Asks :
      {A : Type 0} (b : Bool) (x y : M A) (h : History)
      → Asks h (x h)
      → Asks h (y h)
      → Asks h ((if b then x else y) h)
  if-Asks true x y h p q = p
  if-Asks false x y h p q = q

  forward_thread-Asks :
      (output : Text) (o : Option Text) (h : History) → Asks h (forward_thread app output o h)
  unfolding forward_thread
  forward_thread-Asks output (some id) h = ground arith
  forward_thread-Asks output none h = ground arith

  search-Asks :
      (room : Text) (parent : Option Text) (marker : Text) (pages : Option ℕ) (h : History)
      → Asks h (find_existing_message_by_marker app room parent marker pages h)
  unfolding find_existing_message_by_marker
  search-Asks room parent marker pages h = ground arith

  followup_forward-Asks :
      (source : Message) (context : MessageContext) (output : Text) (h : History)
      → Asks h (followup_forward app source context output h)
  unfolding followup_forward
  followup_forward-Asks source context output h =
      next-Asks h _ _ (pages-Asks _ source.created h) λ pages h'.
        next-Asks h' _ _ (search-Asks output none _ pages h')
          λ found h''. when_found-Asks found _ h'' λ forward. forward_thread-Asks output forward.id

  followup_output-Asks :
      (source : Message) (context : MessageContext) (o : Option Text) (h : History)
      → Asks h (followup_output app source context o h)
  unfolding followup_output
  followup_output-Asks source context (some output) h =
      followup_forward-Asks source context output h
  followup_output-Asks source context none h = ground arith

  followup_reply_thread-Asks :
      (p : RoomPolicy) (event parent : Text) (source : Message) (context : MessageContext)
      (h : History)
      → Asks h (followup_reply_thread app p event parent source context h)
  unfolding followup_reply_thread
  followup_reply_thread-Asks p event parent source context h =
      if-Asks (is_read_only_event app p event) _ _ h
        (followup_output-Asks source context p.output_room_id h) (ground arith)

  finish_followup-Asks :
      (p : RoomPolicy) (root : Message) (id event parent : Text) (thread : List Message)
      (source : Message) (c : Option MessageContext) (h : History)
      → Asks h (finish_followup app p root id event parent thread source c h)
  unfolding finish_followup
  finish_followup-Asks p root id event parent thread source none h = ground arith
  finish_followup-Asks p root id event parent thread source (some context) h =
      next-Asks h _ _ (followup_reply_thread-Asks p event parent source context h)
        λ target h'. when_found-Asks target _ h' λ reply_thread h''. ground arith

  followup_from_source-Asks :
      (p : RoomPolicy) (root : Message) (id event parent : Text) (thread : List Message)
      (o : Option Text) (h : History)
      → Asks h (followup_from_source app p root id event parent thread o h)
  unfolding followup_from_source
  followup_from_source-Asks p root id event parent thread none h = ground arith
  followup_from_source-Asks p root id event parent thread (some source_id) h =
      next-Asks h _ _ (fetch_source-Asks root source_id h) λ found h'.
        when_found-Asks found _ h'
          λ source. finish_followup-Asks p root id event parent thread source _

  followup_listed-Asks :
      (p : RoomPolicy) (m : Message) (id event parent : Text) (root : Message)
      (outcome : Result WebexCallError (List Message)) (h : History)
      → Asks h (followup_listed app p m id event parent root outcome h)
  unfolding followup_listed
  followup_listed-Asks p m id event parent root (err e) h = ground arith
  followup_listed-Asks p m id event parent root (ok messages) h =
      followup_from_source-Asks p root id event parent _ _ h

  Quiet-Asks :
      {A : Type 0} {h h' : History} (out : Result HttpError A × History)
      → Quiet app.config h h'
      → Asks h' out
      → Asks h out
  Quiet-Asks out q r = record { answered = r.answered; quiet = Quiet-trans q r.quiet }

  followup_in_thread-Asks :
      (p : RoomPolicy) (m : Message) (id event parent : Text) (root : Message) (h : History)
      → Asks h (followup_in_thread app p m id event parent root h)
  unfolding followup_in_thread
  followup_in_thread-Asks p m id event parent root h =
      Quiet-Asks {h = h} _ (ground arith) (followup_listed-Asks p m id event parent root _ _)

  followup_of_parent-Asks :
      (p : RoomPolicy) (m : Message) (id event : Text) (o : Option Text) (h : History)
      → Asks h (followup_of_parent app p m id event o h)
  unfolding followup_of_parent
  followup_of_parent-Asks p m id event none h = ground arith
  followup_of_parent-Asks p m id event (some parent) h =
      next-Asks h _ _ (fetch_message-Asks parent h) λ found h'.
        when_found-Asks found _ h' λ root. followup_in_thread-Asks p m id event parent root

  pub resolve_followup-Asks :
      (p : RoomPolicy) (m : Message) (id event : Text) (h : History)
      → Asks h (resolve_followup app p m id event h)
  unfolding resolve_followup
  resolve_followup-Asks p m id event h =
      if-Asks (not (followup_candidate_matches p m app.self_person_id)) _ _ h (ground arith)
        (followup_of_parent-Asks p m id event m.parent_id h)
