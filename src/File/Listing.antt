-- ===== src/File/Listing.antt =====
-- lib/file/db.go: the pages of clients and hosts. `keys` is what `GetMapKeys` returns, in whichever
-- order was asked for.
use nps_socks.Common.Arrays.{get_int_no_err_by_str}
use nps_socks.File.JsonDb.{JsonDb}
use nps_socks.Prelude.{
  ◌∷◌, text_eq, int_eq, none, some, List, Text, ℤ, Bool, not, ℕ, ◌==◌, ◌&&◌, select, [], pos, ◌||◌,
  contains,
}
use nps_socks.File.Obj.{Client, Host}
use nps_socks.SyncMap.{load, Table}
use nps_socks.File.Paging.{first_page, turn_pages}

-- The values that the keys are found to have.
abbrev pub loaded : {V : Type 0} → List ℤ → Table V → List V
loaded [] m = []
loaded (k ∷ ks) m = elim (load k m) [ none ↦ loaded ks m | some v ↦ v ∷ loaded ks m ]

unfoldable pub lists_client : Text → ℤ → Client → Bool
lists_client search client_id v =
    not v.no_display
    && ((client_id == pos 0 || client_id == v.id)
        && (search == []
            || (v.id == get_int_no_err_by_str search
                || (contains v.verify_key search || contains v.remark search))))

unfoldable pub get_client_list : List ℤ → ℤ → ℤ → Text → ℤ → JsonDb → List Client × ℕ
unfolding lists_client turn_pages
get_client_list keys start room search client_id s =
    let page =
      turn_pages (select (lists_client search client_id) (loaded keys s.clients))
        (first_page start room) in
    (page.list, page.cnt)

unfoldable pub lists_host : Text → ℤ → Host → Bool
lists_host search id v =
    (search == []
      || (v.id == get_int_no_err_by_str search
          || (contains v.host search
              || (contains v.remark search || contains v.client.verify_key search))))
    && (id == pos 0 || v.client.id == id)

unfoldable pub get_host : List ℤ → ℤ → ℤ → ℤ → Text → JsonDb → List Host × ℕ
unfolding lists_host turn_pages
get_host keys start room id search s =
    let page =
      turn_pages (select (lists_host search id) (loaded keys s.hosts)) (first_page start room) in
    (page.list, page.cnt)
