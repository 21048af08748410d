-- ===== src/ResponseCache/Tests.antt =====
-- An answer that is cached for a minute.
use agnos_proxy_oss.Base.{suc, ◌≤◌, ◌≡◌, false, none, some, [], length, arith}
use agnos_proxy_oss.ResponseCache.{Redis, mem_max, get, put}
use agnos_proxy_oss.ResponseCache.Bound.{get-put}

abbrev nowhere : Redis
nowhere = record { State = Unit; get_value = λ k s. (none, s); set_value = λ k v t s. (none, s) }

get-put_example :
    ((get nowhere false "k" 30 (put nowhere false "k" "{}" 60 0 [] tt).0 tt).0 ≡ some "{}")
    × (length (put nowhere false "k" "{}" 60 0 [] tt).0 ≤ suc mem_max)
unfolding put
get-put_example = get-put nowhere "k" "{}" 60 0 30 [] tt (omega arith) (omega arith)
