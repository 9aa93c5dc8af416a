-- ===== src/Http2/Session/Ends.antt =====
-- How connections of HTTP/2 end: any sequence of the callbacks of main/http2.
use gfhttpd.Base.{◌≡◌, ◌⊎◌, true, false, List, [], ◌∷◌, ◌++◌, ok, fault}
use gfhttpd.Http2.Session.{Nghttp2, SessionData, open_}
use gfhttpd.Http2.Session.Leaving.{BevEvent, ended, callback, events, HasSession, ends_it}

module _ (n : Nghttp2) where
  -- None of the events is meant to end the connection, and each leaves it open.
  abbrev pub GoOn : List BevEvent → SessionData n → Type 0
  GoOn [] d = Unit
  GoOn (event ∷ es) d =
      (ends_it n event d ≡ false)
      × (d' : SessionData n) × (callback n event d ≡ ok (open_ d'))
      × GoOn es d'

  -- After the events the connection is open, with a session, and its end would be undefined.
  pub record IsOpenAfter (es : List BevEvent) (d : SessionData n) : Type 0 where
    pub left : SessionData n
    pub still_open : events n es d ≡ ok (open_ left)
    pub has_session : HasSession n left
    pub none_meant : GoOn es d
    pub end_faults : callback n ended left ≡ fault

  -- The connection is open up to the first event that is meant to end it; that one is undefined.
  pub record IsUndefinedAt (es : List BevEvent) (d : SessionData n) : Type 0 where
    pub before : List BevEvent
    pub event : BevEvent
    pub after : List BevEvent
    pub parts : es ≡ before ++ event ∷ after
    pub left : SessionData n
    pub still_open : events n before d ≡ ok (open_ left)
    pub none_before : GoOn before d
    pub meant : ends_it n event left ≡ true
    pub faults : events n es d ≡ fault

  -- A connection that is never deleted.
  abbrev pub IsStuck : List BevEvent → SessionData n → Type 0
  IsStuck es d = IsOpenAfter es d ⊎ IsUndefinedAt es d
