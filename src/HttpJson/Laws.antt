-- ===== src/HttpJson/Laws.antt =====
-- Replies to requests that repeat the headers of an earlier reply.
use Prim.Native.String as Text
use lumescope.Prelude.{
  ℕ, ◌*◌, ◌/◌, ◌%◌, String, ◌≡◌, refl, sym, ap, ◌∙◌, Bool, false, ◌&&◌, not, Option, none, some, [],
  ◌==◌, string_eq, nat_eq, leb, if◌then◌else◌, arith, eq_iff, beq_refl, if-has, Bool-cases, inl,
  inr,
}
use mathlib.Core.Path.{ap₂}
use lumescope.Prelude.Text.{strip_prefix?, strip_prefix?-append}
use lumescope.Server.Cors.{Headers, set_header, header, header-set_header}
use lumescope.HttpJson.{
  Formats, Conditions, Response, make_weak_etag, with_last_modified, unmodified_at,
  unmodified_since, respond, json_headers, write_body, write_json,
}

abbrev pub no_conditions : Conditions
no_conditions = record { if_none_match = ""; if_modified_since = "" }

abbrev pub or_empty : Option String → String
or_empty none = ""
or_empty (some s) = s

abbrev pub etag_in : Response → Option String
etag_in reply = header "ETag" reply.headers

-- a request that repeats the ETag of a reply
abbrev pub repeating : Response → String → Conditions
repeating reply since = record {
  if_none_match = or_empty (etag_in reply);
  if_modified_since = since;
}

whole : (last : ℕ) → leb last (last / 1000000000 * 1000000000) ≡ (last % 1000000000 == 0)
whole last = ground arith

module _ (fmt : Formats) where
  etag_kept :
      (last : Option ℕ) (etag : String) (hs : Headers)
      → header "ETag" (with_last_modified fmt last (set_header "ETag" etag hs)) ≡ some etag
  unfolding with_last_modified
  etag_kept none etag hs = header-set_header "ETag" "ETag" etag hs
  etag_kept (some t) etag hs =
      header-set_header "ETag" "Last-Modified" (fmt.format_time t) (set_header "ETag" etag hs)
      ∙ header-set_header "ETag" "ETag" etag hs

  etag-respond :
      (c : Conditions) (status : ℕ) (body : String) (last : Option ℕ) (hs : Headers)
      → etag_in (respond fmt c status body last hs) ≡ some (make_weak_etag fmt body)
  unfolding respond
  etag-respond c status body last hs =
      let etag = make_weak_etag fmt body in
      let kept = etag_kept last etag hs in
      if-has (λ reply. etag_in reply ≡ some etag)
        (not (c.if_none_match == "") && c.if_none_match == etag) _ _ (λ _. kept)
        (λ _.
          if-has (λ reply. etag_in reply ≡ some etag)
            (unmodified_since fmt c.if_modified_since last) _ _ (λ _. kept) (λ _. kept))

  etag_named : (body : String) → (make_weak_etag fmt body == "") ≡ false
  unfolding make_weak_etag
  etag_named body = elim (Bool-cases (make_weak_etag fmt body == "")) [
    | inr n ↦ n
    | inl e ↦
        let rest = Text.◌++◌ (fmt.digest body) "\"" in
        let found : none ≡ some rest =
          ap (strip_prefix? "W/\"") (sym ((eq_iff (make_weak_etag fmt body) "").0 e))
          ∙ strip_prefix?-append "W/\"" rest in
        absurd (ground (arith, found))
  ]

  IsUnmodified : Response → Type 0
  IsUnmodified reply = (reply.status ≡ 304) × (reply.body ≡ none)

  respond-IsUnmodified :
      (since : String) (status : ℕ) (body : String) (last : Option ℕ) (hs : Headers)
      → IsUnmodified (
          respond fmt
            (record { if_none_match = make_weak_etag fmt body; if_modified_since = since })
            status
            body
            last
            hs)
  unfolding respond IsUnmodified
  respond-IsUnmodified since status body last hs =
      rw (etag_named body, beq_refl (make_weak_etag fmt body)) (refl, refl)

  written :
      {A : Type 0} (marshal : A → Option String) (c : Conditions) (status : ℕ) (v : A)
      (body : String) (last : Option ℕ)
      → marshal v ≡ some body
      → write_json marshal fmt c status v last [] ≡ respond fmt c status body last (json_headers [])
  unfolding write_json write_body
  written marshal c status v body last h =
      ap (λ o. write_body fmt c status o last (json_headers [])) h

  etag_first :
      {A : Type 0} (marshal : A → Option String) (c : Conditions) (status : ℕ) (v : A)
      (body : String) (last : Option ℕ)
      → marshal v ≡ some body
      → etag_in (write_json marshal fmt c status v last []) ≡ some (make_weak_etag fmt body)
  etag_first marshal c status v body last h =
      ap etag_in (written marshal c status v body last h)
      ∙ etag-respond c status body last (json_headers [])

  -- A reply to a value that has a JSON text, whose ETag a request repeats while the value has the
  -- same text, is answered with status 304 and no body, and with the same ETag again, whatever status
  -- and times go with it.
  pub etag_replay :
      {A : Type 0} (marshal : A → Option String) (status again : ℕ) (v w : A) (body : String)
      (last later : Option ℕ) (since : String)
      → marshal v ≡ some body
      → marshal w ≡ some body
      → let first = write_json marshal fmt no_conditions status v last [] in
        let reply = write_json marshal fmt (repeating first since) again w later [] in
        (reply.status ≡ 304) × (reply.body ≡ none) × (etag_in reply ≡ etag_in first)
  unfolding IsUnmodified
  etag_replay marshal status again v w body last later since hv hw =
      let first = etag_first marshal no_conditions status v body last hv in
      let same =
        written marshal (repeating (write_json marshal fmt no_conditions status v last []) since)
          again w body later hw
        ∙ ap
            (λ o.
              respond fmt (record { if_none_match = or_empty o; if_modified_since = since }) again
                body later (json_headers []))
            first in
      let unmodified = respond-IsUnmodified since again body later (json_headers []) in
      (
        ap (λ (r : Response). r.status) same ∙ unmodified.0,
        ap (λ (r : Response). r.body) same ∙ unmodified.1,
        ap etag_in same ∙ etag-respond _ again body later (json_headers []) ∙ sym first,
      )

  since_whole :
      (since : String) (last : ℕ)
      → fmt.parse_time since ≡ some (last / 1000000000 * 1000000000)
      → (since == "") ≡ false
      → unmodified_since fmt since (some last) ≡ (last % 1000000000 == 0)
  unfolding unmodified_since unmodified_at
  since_whole since last parsed named = rw (parsed, named) (whole last)

  respond_since :
      (since : String) (status : ℕ) (body : String) (last : ℕ) (hs : Headers)
      → respond fmt
          (record { if_none_match = ""; if_modified_since = since })
          status
          body
          (some last)
          hs
        ≡ (let first = respond fmt no_conditions status body (some last) hs in
            if unmodified_since fmt since (some last)
            then record first { status = 304; body = none }
            else first)
  unfolding respond
  respond_since since status body last hs = refl

  -- Where the text of a time is read back as the whole seconds of it, a request that repeats the
  -- Last-Modified of a reply, and no ETag, is answered with status 304 exactly if that time has no
  -- fraction of a second, and else with the value again.
  pub last_modified_replay :
      {A : Type 0} (marshal : A → Option String) (status : ℕ) (v : A) (body : String) (last : ℕ)
      → marshal v ≡ some body
      → fmt.parse_time (fmt.format_time last) ≡ some (last / 1000000000 * 1000000000)
      → (fmt.format_time last == "") ≡ false
      → write_json marshal fmt
          (record { if_none_match = ""; if_modified_since = fmt.format_time last })
          status
          v
          (some last)
          []
        ≡ (let first = write_json marshal fmt no_conditions status v (some last) [] in
            if last % 1000000000 == 0 then record first { status = 304; body = none } else first)
  last_modified_replay marshal status v body last h parsed named =
      let since = fmt.format_time last in
      written marshal (record { if_none_match = ""; if_modified_since = since }) status v body
        (some last) h
      ∙ respond_since since status body last (json_headers [])
      ∙ sym (
          ap₂
            (λ (unmodified : Bool) (first : Response).
              if unmodified then record first { status = 304; body = none } else first)
            (sym (since_whole since last parsed named))
            (written marshal no_conditions status v body (some last) h))
