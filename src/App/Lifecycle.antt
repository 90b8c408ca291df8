-- ===== src/App/Lifecycle.antt =====
-- From the start of the service to its end: what is opened is closed.
use ingest.Prelude.{
  Bool-cases, List, Option, Option-cases, [], arith, false, inl, inr, map, nat_key, none, refl,
  some, text_key, true, ◌++◌, ◌+◌, ◌∷◌, ◌≡◌, ◌⊎◌,
}
use ingest.GoText.{GoText}
use ingest.Config.{Config}
use ingest.App.{
  Event, Handle, Outside, click_house_handle, closed, consumer_handle, handle_beq, mysql_handle,
  opened, producer_handle, publisher_handle,
}
use ingest.App.Ingest.{
  Built, IngestBundle, build_ingest, built, consumer_failed, ensure_failed, producer_failed,
}
use ingest.App.Infra.{
  Ended, add_grpc_server, close_infra, finish_infra, new_infra, no_grpc_server, open_click_house,
  open_click_house_conn, open_db, open_mysql, run_app, serve, start_failed, stopped,
}
use ingest.App.Counts.{
  closes, closes-append, closes-each, occurs, occurs-append, opens, opens-append,
}
use ingest.App.Balance.{AfterBuild, Undone, build_ingest-AfterBuild, held}

module _ (h : Handle) where
  mysql-cases :
      (o : Outside)
      → (((open_mysql o []).1 ≡ true) × ((open_mysql o []).0 ≡ opened mysql_handle ∷ []))
        ⊎ (((open_mysql o []).1 ≡ false)
            × (opens h (open_mysql o []).0 ≡ closes h (open_mysql o []).0))
  unfolding open_mysql open_db
  mysql-cases o = elim (Option-cases o.driver_config) [
    | inr (e, x) ↦ inr (rw (x, open_mysql) (refl, refl))
    | inl x ↦ elim (Option-cases o.mysql_connector) [
      | inr (e, y) ↦ inr (rw (x, y, open_mysql, open_db) (refl, refl))
      | inl y ↦ elim (Option-cases o.mysql_ping) [
        | inr (e, z) ↦ inr (rw (x, y, z, open_mysql, open_db) (refl, refl))
        | inl z ↦ inl (rw (x, y, z, open_mysql, open_db) (refl, refl))
      ]
    ]
  ]

  click_house-cases :
      (o : Outside) (t : List Event)
      → (((open_click_house o t).1 ≡ true)
          × ((open_click_house o t).0 ≡ t ++ opened click_house_handle ∷ []))
        ⊎ (((open_click_house o t).1 ≡ false)
            × (opens h (open_click_house o t).0 + closes h t
                ≡ closes h (open_click_house o t).0 + opens h t))
  unfolding open_click_house open_click_house_conn
  click_house-cases o t = elim (Option-cases o.click_house_open) [
    | inr (e, x) ↦ inr (rw (x, open_click_house, open_click_house_conn) (refl, omega arith))
    | inl x ↦ elim (Option-cases o.click_house_ping) [
      | inl y ↦ inl (rw (x, y, open_click_house, open_click_house_conn) (refl, refl))
      | inr (e, y) ↦
          let two : List Event = opened click_house_handle ∷ closed click_house_handle ∷ [] in
          inr (
            rw (x, y, open_click_house, open_click_house_conn)
              (refl, ground (arith, opens-append h t two, closes-append h t two)))
    ]
  ]

  databases : List Handle
  databases = click_house_handle ∷ mysql_handle ∷ []

  -- After a start that succeeds the bundle and the databases are open; after one that fails
  -- everything was closed again, but for a publisher.
  abbrev AfterInfra : List Event × Option IngestBundle → Type 0
  AfterInfra (t, some b) = (opens h t ≡ occurs h (held h b) + occurs h databases) × (closes h t ≡ 0)
  AfterInfra (t, none) = (handle_beq publisher_handle h ≡ true) ⊎ (opens h t ≡ closes h t)

  both_open : List Event
  both_open = opened mysql_handle ∷ opened click_house_handle ∷ []

  closing : List Event
  closing = closed click_house_handle ∷ closed mysql_handle ∷ []

  undo :
      (t : List Event)
      → Undone h both_open t
      → (handle_beq publisher_handle h ≡ true) ⊎ (opens h (t ++ closing) ≡ closes h (t ++ closing))
  unfolding both_open closing
  undo t (inl p) = inl p
  undo t (inr u) = inr (ground (arith, u, opens-append h t closing, closes-append h t closing))

  finish_infra-AfterInfra :
      (r : List Event × Built) → AfterBuild h both_open r → AfterInfra (finish_infra r)
  unfolding finish_infra closing
  finish_infra-AfterInfra (t, built b) k =
      unfold both_open databases in (ground (arith, k.now_open), ground (arith, k.kept))
  finish_infra-AfterInfra (t, ensure_failed) u = undo t u
  finish_infra-AfterInfra (t, producer_failed e) u = undo t u
  finish_infra-AfterInfra (t, consumer_failed s e) u = undo t u

  new_infra-AfterInfra :
      (o : Outside) (text : GoText) (c : Config) → AfterInfra (new_infra o text c)
  unfolding new_infra both_open
  new_infra-AfterInfra o text c =
      let t1 : List Event = opened mysql_handle ∷ [] in
      elim (mysql-cases o) [
        | inr (e, even) ↦ rw (new_infra, e) (inr even)
        | inl (e, opened_db) ↦ elim (click_house-cases o t1) [
          | inr (f, even) ↦
              let t2 = (open_click_house o t1).0 in
              let undone : opens h (t2 ++ closed mysql_handle ∷ [])
                  ≡ closes h (t2 ++ closed mysql_handle ∷ []) =
                ground (
                  arith,
                  even,
                  opens-append h t2 (closed mysql_handle ∷ []),
                  closes-append h t2 (closed mysql_handle ∷ []),
                ) in
              rw (new_infra, e, opened_db, f) (inr undone)
          | inl (f, opened_ch) ↦
              rw (new_infra, e, opened_db, f, opened_ch)
                (finish_infra-AfterInfra (build_ingest o text c both_open)
                  (build_ingest-AfterBuild h o text c both_open))
        ]
      ]

  close_infra-balanced :
      (t : List Event) (b : IngestBundle)
      → AfterInfra (t, some b)
      → opens h (t ++ close_infra b) ≡ closes h (t ++ close_infra b)
  unfolding close_infra databases
  close_infra-balanced t b k =
      let cs = map consumer_handle b.consumer_topics in
      let dbs : List Handle = click_house_handle ∷ mysql_handle ∷ [] in
      omega (
        arith,
        k,
        opens-append h t (close_infra b),
        closes-append h t (close_infra b),
        closes-each h (cs ++ (b.closers ++ producer_handle ∷ dbs)),
        occurs-append h cs (b.closers ++ producer_handle ∷ dbs),
        occurs-append h b.closers (producer_handle ∷ dbs),
        occurs-append h (producer_handle ∷ []) dbs,
        occurs-append h cs (b.closers ++ producer_handle ∷ []),
        occurs-append h b.closers (producer_handle ∷ []),
      )

  -- the ways in which a run ends
  abbrev pub Balanced : List Event × Ended → Type 0
  Balanced (t, stopped e) = opens h t ≡ closes h t
  Balanced (t, start_failed) = (handle_beq publisher_handle h ≡ true) ⊎ (opens h t ≡ closes h t)
  Balanced (t, no_grpc_server) = closes h t ≡ 0

  serve-Balanced :
      (o : Outside) (c : Config) (r : List Event × Option IngestBundle)
      → AfterInfra r
      → Balanced (serve o c r)
  unfolding serve
  serve-Balanced o c (t, none) k = k
  serve-Balanced o c (t, some b) k = elim (Bool-cases (add_grpc_server o c.otlp.grpc_port)) [
    | inl e ↦ rw (serve, e) (close_infra-balanced t b k)
    | inr e ↦ rw (serve, e) k.1
  ]

  -- What a run of the service leaves open, for every handle, which is a database, a client of Kafka,
  -- the recorder or the publisher of scores, and whatever the outside answers. A run that got as
  -- far as its servers has closed each handle as often as it opened it. So has one whose start
  -- failed, but for the publisher of scores. One that could not listen for gRPC has closed none.
  pub run_app-Balanced : (o : Outside) (text : GoText) (c : Config) → Balanced (run_app o text c)
  unfolding run_app
  run_app-Balanced o text c =
      serve-Balanced o c (new_infra o text c) (new_infra-AfterInfra o text c)
