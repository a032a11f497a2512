-- ===== src/Cocgi/Stored/Connection.antt =====
-- All `readData` of a connection, over buffers and over lists of bytes.
use fastcgi_async_or_corouti.Base.{◌≡◌, refl, ap, ◌∙◌, Bytes, ParamMap, List, [], ◌∷◌}
use fastcgi_async_or_corouti.ByteQueue.{ByteQueue}
use fastcgi_async_or_corouti.Cgi.{CgiParser}
use fastcgi_async_or_corouti.Cocgi.Codec.{Codec, new_codec}
use fastcgi_async_or_corouti.Cocgi.Session.{
  ErrorCode, Outcome, returns, throws, waits, Reply, read_data,
}
use fastcgi_async_or_corouti.Cocgi.Server.Alone.{Poll}
use fastcgi_async_or_corouti.Cocgi.Stored.{StoredCodec, new_stored}
use fastcgi_async_or_corouti.Cocgi.Stored.Records.{SameCodec}
use fastcgi_async_or_corouti.Cocgi.Stored.Reads.{new_stored_lem}
use fastcgi_async_or_corouti.Cocgi.Stored.Session.{StoredReply, stored_read_data}
use fastcgi_async_or_corouti.Cocgi.Stored.Answers.{
  SameOutcome, both_return, both_throw, both_wait, stored_read_data_lem,
}

-- The codes, the bytes sent and the calls of the back end, and how the last call ended.
abbrev pub Replies : Type 0
Replies = List (ErrorCode × Bytes × List (ParamMap × ParamMap)) × Outcome (Unit {0})

abbrev first_reply : ErrorCode → Bytes → List (ParamMap × ParamMap) → Replies → Replies
first_reply code sent calls r = ((code, sent, calls) ∷ r.0, r.1)

abbrev behind_reply : Outcome Reply → (Codec → Replies) → Replies
behind_reply (returns r) f = first_reply r.code r.sent r.calls (f r.codec)
behind_reply throws f = ([], throws)
behind_reply waits f = ([], waits)

module _ (cgi : CgiParser) where
  -- One `readData` behind the other, up to the first that does not return.
  unfoldable pub replies : List Poll → Codec → Replies
  replies [] c = ([], returns tt)
  replies (p ∷ ps) c = behind_reply (read_data cgi p.read p.errno_again p.writes c) (replies ps)

  module _ (queue : ByteQueue) where
    abbrev behind_stored : Outcome (StoredReply queue) → (StoredCodec queue → Replies) → Replies
    behind_stored (returns r) f = first_reply r.code r.sent r.calls (f r.codec)
    behind_stored throws f = ([], throws)
    behind_stored waits f = ([], waits)

    unfoldable pub stored_replies : List Poll → StoredCodec queue → Replies
    stored_replies [] c = ([], returns tt)
    stored_replies (p ∷ ps) c =
        behind_stored (stored_read_data queue cgi p.read p.errno_again p.writes c)
          (stored_replies ps)

    same_behind :
        (o : Outcome (StoredReply queue)) (p : Outcome Reply) (f : StoredCodec queue → Replies)
        (g : Codec → Replies)
        → SameOutcome queue o p
        → ((b : StoredCodec queue) (c : Codec) → SameCodec queue b c → f b ≡ g c)
        → behind_stored o f ≡ behind_reply p g
    same_behind o p f g (both_return r s h) e =
        ap (λ code. first_reply code r.sent r.calls (f r.codec)) h.same_code
        ∙ ap (λ sent. first_reply s.code sent r.calls (f r.codec)) h.same_sent
        ∙ ap (λ calls. first_reply s.code s.sent calls (f r.codec)) h.same_calls
        ∙ ap (first_reply s.code s.sent s.calls) (e r.codec s.codec h.same_codec)
    same_behind o p f g both_throw e = refl
    same_behind o p f g both_wait e = refl

    same_replies :
        (ps : List Poll) (b : StoredCodec queue) (c : Codec)
        → SameCodec queue b c
        → stored_replies ps b ≡ replies ps c
    unfolding stored_replies replies
    same_replies [] b c h = refl
    same_replies (p ∷ ps) b c h =
        same_behind _ _ (stored_replies ps) (replies ps)
          (stored_read_data_lem queue cgi p.read p.errno_again p.writes b c h) (same_replies ps)

    -- Over any buffer that keeps the laws of a queue of bytes, `readData` does on a connection what
    -- it does over lists of bytes: whatever `read` and `write` return, call by call it returns the
    -- same code, has sent the same bytes and has called the back end with the same maps, up to a
    -- call that does not return, and that ends in the same way.
    pub stored_replies_lem :
        (ps : List Poll) → stored_replies ps (new_stored queue) ≡ replies ps new_codec
    stored_replies_lem ps = same_replies ps (new_stored queue) new_codec (new_stored_lem queue)
