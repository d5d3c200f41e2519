-- ===== src/Cdc/Cuts.antt =====
-- The slices that `parseCdc` takes of a text joined of thirteen parts are those parts.
use facturacion_sifen.Prelude.{
  ℕ, ◌-◌, ◌≡◌, refl, ap, ◌∙◌, ◌++◌, arith, Text, length, slice, drop, take, take-append, cut_next,
  take-all,
}

slice_at : (s x rest : Text) (a b : ℕ) → drop a s ≡ x ++ rest → length x ≡ b - a → slice s a b ≡ x
slice_at s x rest a b h l = ap (take (b - a)) h ∙ take-append (b - a) x rest l

-- The parts, each of its width.
pub record Pieces : Type 0 where
  pub dt : Text
  pub rb : Text
  pub dv : Text
  pub es : Text
  pub pt : Text
  pub dn : Text
  pub tx : Text
  pub y : Text
  pub m : Text
  pub d : Text
  pub et : Text
  pub sc : Text
  pub cd : Text
  pub dt_width : length dt ≡ 2
  pub rb_width : length rb ≡ 8
  pub dv_width : length dv ≡ 1
  pub es_width : length es ≡ 3
  pub pt_width : length pt ≡ 3
  pub dn_width : length dn ≡ 7
  pub tx_width : length tx ≡ 1
  pub y_width : length y ≡ 4
  pub m_width : length m ≡ 2
  pub d_width : length d ≡ 2
  pub et_width : length et ≡ 1
  pub sc_width : length sc ≡ 9
  pub cd_width : length cd ≡ 1

abbrev pub whole : Pieces → Text
whole p =
    p.dt
    ++ (p.rb
        ++ (p.dv
            ++ (p.es
                ++ (p.pt
                    ++ (p.dn ++ (p.tx ++ (p.y ++ (p.m ++ (p.d ++ (p.et ++ (p.sc ++ (p.cd))))))))))))

module _ (p : Pieces) where
  drop_2 :
      drop 2 (whole p)
      ≡ p.rb
        ++ (p.dv
            ++ (p.es
                ++ (p.pt
                    ++ (p.dn ++ (p.tx ++ (p.y ++ (p.m ++ (p.d ++ (p.et ++ (p.sc ++ (p.cd)))))))))))
  drop_2 =
      cut_next 0 2 2 (whole p) p.dt
        (p.rb
          ++ (p.dv
              ++ (p.es
                  ++ (p.pt
                      ++ (p.dn
                          ++ (p.tx ++ (p.y ++ (p.m ++ (p.d ++ (p.et ++ (p.sc ++ (p.cd))))))))))))
        (omega arith) refl p.dt_width

  drop_10 :
      drop 10 (whole p)
      ≡ p.dv
        ++ (p.es
            ++ (p.pt ++ (p.dn ++ (p.tx ++ (p.y ++ (p.m ++ (p.d ++ (p.et ++ (p.sc ++ (p.cd))))))))))
  drop_10 =
      cut_next 2 8 10 (whole p) p.rb
        (p.dv
          ++ (p.es
              ++ (p.pt
                  ++ (p.dn ++ (p.tx ++ (p.y ++ (p.m ++ (p.d ++ (p.et ++ (p.sc ++ (p.cd)))))))))))
        (omega arith) drop_2 p.rb_width

  drop_11 :
      drop 11 (whole p)
      ≡ p.es ++ (p.pt ++ (p.dn ++ (p.tx ++ (p.y ++ (p.m ++ (p.d ++ (p.et ++ (p.sc ++ (p.cd)))))))))
  drop_11 =
      cut_next 10 1 11 (whole p) p.dv
        (p.es
          ++ (p.pt ++ (p.dn ++ (p.tx ++ (p.y ++ (p.m ++ (p.d ++ (p.et ++ (p.sc ++ (p.cd))))))))))
        (omega arith) drop_10 p.dv_width

  drop_14 :
      drop 14 (whole p)
      ≡ p.pt ++ (p.dn ++ (p.tx ++ (p.y ++ (p.m ++ (p.d ++ (p.et ++ (p.sc ++ (p.cd))))))))
  drop_14 =
      cut_next 11 3 14 (whole p) p.es
        (p.pt ++ (p.dn ++ (p.tx ++ (p.y ++ (p.m ++ (p.d ++ (p.et ++ (p.sc ++ (p.cd)))))))))
        (omega arith) drop_11 p.es_width

  drop_17 :
      drop 17 (whole p) ≡ p.dn ++ (p.tx ++ (p.y ++ (p.m ++ (p.d ++ (p.et ++ (p.sc ++ (p.cd)))))))
  drop_17 =
      cut_next 14 3 17 (whole p) p.pt
        (p.dn ++ (p.tx ++ (p.y ++ (p.m ++ (p.d ++ (p.et ++ (p.sc ++ (p.cd)))))))) (omega arith)
        drop_14 p.pt_width

  drop_24 : drop 24 (whole p) ≡ p.tx ++ (p.y ++ (p.m ++ (p.d ++ (p.et ++ (p.sc ++ (p.cd))))))
  drop_24 =
      cut_next 17 7 24 (whole p) p.dn
        (p.tx ++ (p.y ++ (p.m ++ (p.d ++ (p.et ++ (p.sc ++ (p.cd))))))) (omega arith) drop_17
        p.dn_width

  drop_25 : drop 25 (whole p) ≡ p.y ++ (p.m ++ (p.d ++ (p.et ++ (p.sc ++ (p.cd)))))
  drop_25 =
      cut_next 24 1 25 (whole p) p.tx (p.y ++ (p.m ++ (p.d ++ (p.et ++ (p.sc ++ (p.cd))))))
        (omega arith) drop_24 p.tx_width

  drop_29 : drop 29 (whole p) ≡ p.m ++ (p.d ++ (p.et ++ (p.sc ++ (p.cd))))
  drop_29 =
      cut_next 25 4 29 (whole p) p.y (p.m ++ (p.d ++ (p.et ++ (p.sc ++ (p.cd))))) (omega arith)
        drop_25 p.y_width

  drop_31 : drop 31 (whole p) ≡ p.d ++ (p.et ++ (p.sc ++ (p.cd)))
  drop_31 =
      cut_next 29 2 31 (whole p) p.m (p.d ++ (p.et ++ (p.sc ++ (p.cd)))) (omega arith) drop_29
        p.m_width

  drop_33 : drop 33 (whole p) ≡ p.et ++ (p.sc ++ (p.cd))
  drop_33 =
      cut_next 31 2 33 (whole p) p.d (p.et ++ (p.sc ++ (p.cd))) (omega arith) drop_31 p.d_width

  drop_34 : drop 34 (whole p) ≡ p.sc ++ (p.cd)
  drop_34 = cut_next 33 1 34 (whole p) p.et (p.sc ++ (p.cd)) (omega arith) drop_33 p.et_width

  drop_43 : drop 43 (whole p) ≡ p.cd
  drop_43 = cut_next 34 9 43 (whole p) p.sc (p.cd) (omega arith) drop_34 p.sc_width

  pub slice-dt : slice (whole p) 0 2 ≡ p.dt
  slice-dt =
      slice_at (whole p) p.dt
        (p.rb
          ++ (p.dv
              ++ (p.es
                  ++ (p.pt
                      ++ (p.dn
                          ++ (p.tx ++ (p.y ++ (p.m ++ (p.d ++ (p.et ++ (p.sc ++ (p.cd))))))))))))
        0 2 refl p.dt_width

  pub slice-rb : slice (whole p) 2 10 ≡ p.rb
  slice-rb =
      slice_at (whole p) p.rb
        (p.dv
          ++ (p.es
              ++ (p.pt
                  ++ (p.dn ++ (p.tx ++ (p.y ++ (p.m ++ (p.d ++ (p.et ++ (p.sc ++ (p.cd)))))))))))
        2 10 drop_2 p.rb_width

  pub slice-dv : slice (whole p) 10 11 ≡ p.dv
  slice-dv =
      slice_at (whole p) p.dv
        (p.es
          ++ (p.pt ++ (p.dn ++ (p.tx ++ (p.y ++ (p.m ++ (p.d ++ (p.et ++ (p.sc ++ (p.cd))))))))))
        10 11 drop_10 p.dv_width

  pub slice-es : slice (whole p) 11 14 ≡ p.es
  slice-es =
      slice_at (whole p) p.es
        (p.pt ++ (p.dn ++ (p.tx ++ (p.y ++ (p.m ++ (p.d ++ (p.et ++ (p.sc ++ (p.cd))))))))) 11 14
        drop_11 p.es_width

  pub slice-pt : slice (whole p) 14 17 ≡ p.pt
  slice-pt =
      slice_at (whole p) p.pt
        (p.dn ++ (p.tx ++ (p.y ++ (p.m ++ (p.d ++ (p.et ++ (p.sc ++ (p.cd)))))))) 14 17 drop_14
        p.pt_width

  pub slice-dn : slice (whole p) 17 24 ≡ p.dn
  slice-dn =
      slice_at (whole p) p.dn (p.tx ++ (p.y ++ (p.m ++ (p.d ++ (p.et ++ (p.sc ++ (p.cd))))))) 17 24
        drop_17 p.dn_width

  pub slice-tx : slice (whole p) 24 25 ≡ p.tx
  slice-tx =
      slice_at (whole p) p.tx (p.y ++ (p.m ++ (p.d ++ (p.et ++ (p.sc ++ (p.cd)))))) 24 25 drop_24
        p.tx_width

  pub slice-y : slice (whole p) 25 29 ≡ p.y
  slice-y =
      slice_at (whole p) p.y (p.m ++ (p.d ++ (p.et ++ (p.sc ++ (p.cd))))) 25 29 drop_25 p.y_width

  pub slice-m : slice (whole p) 29 31 ≡ p.m
  slice-m = slice_at (whole p) p.m (p.d ++ (p.et ++ (p.sc ++ (p.cd)))) 29 31 drop_29 p.m_width

  pub slice-d : slice (whole p) 31 33 ≡ p.d
  slice-d = slice_at (whole p) p.d (p.et ++ (p.sc ++ (p.cd))) 31 33 drop_31 p.d_width

  pub slice-et : slice (whole p) 33 34 ≡ p.et
  slice-et = slice_at (whole p) p.et (p.sc ++ (p.cd)) 33 34 drop_33 p.et_width

  pub slice-sc : slice (whole p) 34 43 ≡ p.sc
  slice-sc = slice_at (whole p) p.sc (p.cd) 34 43 drop_34 p.sc_width

  pub slice-cd : slice (whole p) 43 44 ≡ p.cd
  slice-cd = ap (take 1) drop_43 ∙ take-all 1 p.cd p.cd_width
