-- ===== src/Cgicc/Object/Copies.antt =====
-- Copies and assignments of a Cgicc.
use fastcgi_async_or_corouti.Base.{◌≡◌, Option, none, some, Bytes, [], arith}
use fastcgi_async_or_corouti.Cgicc.Forms.{Forms, parse_cookies}
use fastcgi_async_or_corouti.Cgicc.Object.{Cgicc, parse_forms, new_cgicc, assign_from, copy}

made_from :
    (o : Option Forms) (query cookie posted type : Bytes) (c : Cgicc)
    → (elim o as (λ x. Option Cgicc) [
      | none ↦ none
      | some forms ↦ some (record {
        query_string = query;
        cookie = cookie;
        post_data = posted;
        query_type = type;
        forms = forms;
        cookies = parse_cookies cookie;
      })
    ])
      ≡ some c
    → (o ≡ some c.forms)
      × (c ≡ record {
        query_string = query;
        cookie = cookie;
        post_data = posted;
        query_type = type;
        forms = c.forms;
        cookies = parse_cookies cookie;
      })
made_from none query cookie posted type c e = cc
made_from (some forms) query cookie posted type c e = ground arith

forms_parsed :
    (query cookie posted type : Bytes) (c : Cgicc)
    → new_cgicc query cookie posted type ≡ some c
    → (parse_forms posted type query ≡ some c.forms)
      × (c ≡ record {
        query_string = query;
        cookie = cookie;
        post_data = posted;
        query_type = type;
        forms = c.forms;
        cookies = parse_cookies cookie;
      })
unfolding new_cgicc
forms_parsed query cookie posted type c e =
    made_from (parse_forms posted type query) query cookie posted type c e

-- A copy of an object that the constructor has made has its strings, elements and files, and no cookie.
pub copy-new_cgicc :
    (query cookie posted type : Bytes) (c : Cgicc)
    → new_cgicc query cookie posted type ≡ some c
    → copy c ≡ some (record c { cookies = [] })
unfolding copy
copy-new_cgicc query cookie posted type c e =
    let (parsed, made) = forms_parsed query cookie posted type c e in ground (arith, parsed, made)

-- Assigning to an object that the constructor has made changes nothing of it, whatever is assigned.
pub assign_from-new_cgicc :
    (query cookie posted type : Bytes) (other c : Cgicc)
    → new_cgicc query cookie posted type ≡ some c
    → assign_from other c ≡ some c
unfolding assign_from
assign_from-new_cgicc query cookie posted type other c e =
    let (parsed, made) = forms_parsed query cookie posted type c e in ground (arith, parsed, made)
