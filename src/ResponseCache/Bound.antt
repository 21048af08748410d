-- ===== src/ResponseCache/Bound.antt =====
-- What the cache of a process gives back, and how large it gets.
use agnos_proxy_oss.Base.{
  ℕ, suc, ◌+◌, ◌≤◌, ◌<◌, ◌≡◌, String, false, some, [], ltb, if◌then◌else◌, length, string_eq, arith,
}
use agnos_proxy_oss.Base.Dict.{lookup-insert_self, length-insert}
use agnos_proxy_oss.ResponseCache.{Redis, Mem, mem_max, get_local, put_local, get, put}

put_local-size :
    (key data_ : String) (ttl now : ℕ) (mem : Mem)
    → length mem ≤ suc mem_max
    → length (put_local key data_ ttl now mem) ≤ suc mem_max
unfolding put_local
put_local-size key data_ ttl now mem small =
    let kept : Mem = if ltb mem_max (length mem) then [] else mem in
    let room : length kept ≤ mem_max = ground arith in
    omega (arith, room, length-insert key (data_, now + ttl) kept)

pub get_local-put_local :
    (key data_ : String) (ttl now later : ℕ) (mem : Mem)
    → later < now + ttl
    → get_local key later (put_local key data_ ttl now mem) ≡ some data_
unfolding get_local put_local
get_local-put_local key data_ ttl now later mem soon =
    let kept : Mem = if ltb mem_max (length mem) then [] else mem in
    ground (arith, lookup-insert_self key (data_, now + ttl) kept)

-- Without Redis, what is put is got back until it expires, whatever else the cache holds; and the
-- cache never has more than 5,001 entries.
pub get-put :
    (R : Redis) (key data_ : String) (ttl now later : ℕ) (mem : Mem) (s : R.State)
    → length mem ≤ suc mem_max
    → later < now + ttl
    → let (mem', s') = put R false key data_ ttl now mem s in
      ((get R false key later mem' s').0 ≡ some data_) × (length mem' ≤ suc mem_max)
unfolding get put
get-put R key data_ ttl now later mem s small soon = (
  get_local-put_local key data_ ttl now later mem soon,
  put_local-size key data_ ttl now mem small,
)
