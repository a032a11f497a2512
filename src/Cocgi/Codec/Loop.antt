-- ===== src/Cocgi/Codec/Loop.antt =====
-- The loop of `parseFcgiPackage` on any bytes.
use fastcgi_async_or_corouti.Base.{
  ℕ, zero, suc, ◌≤◌, ◌<◌, ◌≡◌, refl, true, length, length-drop, if◌then◌else◌, arith,
}
use fastcgi_async_or_corouti.Cocgi.Header.{RecordHeader, load_header}
use fastcgi_async_or_corouti.Cocgi.Codec.{
  Codec, on_begin_request, on_params, on_stdin, dispatch, total_length, parse_step, package_loop,
  parse_fcgi_package,
}

-- The handlers leave the buffer alone.
pub dispatch-buf : (h : RecordHeader) (c : Codec) → (dispatch h c).buf ≡ c.buf
unfolding dispatch on_begin_request on_params on_stdin
dispatch-buf h c = ground arith

pub parse_step-shorter :
    (c : Codec) → (parse_step c).0 ≡ true → length (parse_step c).1.buf < length c.buf
unfolding parse_step
parse_step-shorter c h = ground (
  arith,
  dispatch-buf (load_header c.buf) c,
  length-drop (total_length (load_header c.buf)) c.buf,
)

pub package_loop_enough :
    (f g : ℕ) (c : Codec)
    → length c.buf ≤ f
    → length c.buf ≤ g
    → package_loop f c ≡ package_loop g c
unfolding package_loop
package_loop_enough zero zero c hf hg = refl
package_loop_enough zero (suc g) c hf hg = ground (arith, parse_step-shorter c)
package_loop_enough (suc f) zero c hf hg = ground (arith, parse_step-shorter c)
package_loop_enough (suc f) (suc g) c hf hg =
    ground (arith, parse_step-shorter c, package_loop_enough f g (parse_step c).1)

loop_equation :
    (n : ℕ) (c : Codec)
    → length c.buf ≤ n
    → package_loop n c ≡ (
        if (parse_step c).0 then package_loop (length (parse_step c).1.buf) (parse_step c).1 else c)
unfolding package_loop
loop_equation zero c h = ground (arith, parse_step-shorter c)
loop_equation (suc n) c h = ground (
  arith,
  parse_step-shorter c,
  package_loop_enough n (length (parse_step c).1.buf) (parse_step c).1,
)

-- `parseFcgiPackage` satisfies the equation of the source's loop, with no fuel in it: it handles the
-- record at the head of the buffer, if one is there whole, and goes on behind it; else it stops.
pub parse_fcgi_package_lem :
    (c : Codec)
    → parse_fcgi_package c ≡ (if (parse_step c).0 then parse_fcgi_package (parse_step c).1 else c)
unfolding parse_fcgi_package
parse_fcgi_package_lem c = loop_equation (length c.buf) c (omega arith)
