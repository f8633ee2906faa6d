-- ===== src/Api/SideBySide.antt =====
-- Three tables in one database: each statement works on one of them.
use fullstack_starter.Prelude.{ℕ}
use fullstack_starter.Api.Model.{Model, ModelLaws}

module _ {A B C Row : Type 0} where
  abbrev pub first_model : Model A Row → Model (A × B × C) Row
  first_model m = record {
    view = λ x i. m.view x.0 i;
    find_one = λ p x. m.find_one p x.0;
    count = λ p x. m.count p x.0;
    create = λ mk x. ((m.create mk x.0).0, ((m.create mk x.0).1, x.1, x.2));
    update = λ p f x. ((m.update p f x.0).0, ((m.update p f x.0).1, x.1, x.2));
  }

  abbrev pub second_model : Model B Row → Model (A × B × C) Row
  second_model m = record {
    view = λ x i. m.view x.1 i;
    find_one = λ p x. m.find_one p x.1;
    count = λ p x. m.count p x.1;
    create = λ mk x. ((m.create mk x.1).0, (x.0, (m.create mk x.1).1, x.2));
    update = λ p f x. ((m.update p f x.1).0, (x.0, (m.update p f x.1).1, x.2));
  }

  abbrev pub third_model : Model C Row → Model (A × B × C) Row
  third_model m = record {
    view = λ x i. m.view x.2 i;
    find_one = λ p x. m.find_one p x.2;
    count = λ p x. m.count p x.2;
    create = λ mk x. ((m.create mk x.2).0, (x.0, x.1, (m.create mk x.2).1));
    update = λ p f x. ((m.update p f x.2).0, (x.0, x.1, (m.update p f x.2).1));
  }

  pub first_laws :
      {id_of : Row → ℕ} {m : Model A Row} → ModelLaws id_of m → ModelLaws id_of (first_model m)
  first_laws laws = record {
    view_key = λ x i r h. laws.view_key x.0 i r h;
    find_none = λ p x i r h g. laws.find_none p x.0 i r h g;
    find_some = λ p x r h. laws.find_some p x.0 r h;
    count_zero = λ p x i r h g. laws.count_zero p x.0 i r h g;
    count_suc = λ p x n h. laws.count_suc p x.0 n h;
    create_ok = λ mk x r k h. laws.create_ok mk x.0 r k h;
    create_view = λ mk x r i k h. laws.create_view mk x.0 r i k h;
    create_failed = λ mk x e i h. laws.create_failed mk x.0 e i h;
    update_view = λ p f x n i k h. laws.update_view p f x.0 n i k h;
    update_failed = λ p f x e i h. laws.update_failed p f x.0 e i h;
  }

  pub second_laws :
      {id_of : Row → ℕ} {m : Model B Row} → ModelLaws id_of m → ModelLaws id_of (second_model m)
  second_laws laws = record {
    view_key = λ x i r h. laws.view_key x.1 i r h;
    find_none = λ p x i r h g. laws.find_none p x.1 i r h g;
    find_some = λ p x r h. laws.find_some p x.1 r h;
    count_zero = λ p x i r h g. laws.count_zero p x.1 i r h g;
    count_suc = λ p x n h. laws.count_suc p x.1 n h;
    create_ok = λ mk x r k h. laws.create_ok mk x.1 r k h;
    create_view = λ mk x r i k h. laws.create_view mk x.1 r i k h;
    create_failed = λ mk x e i h. laws.create_failed mk x.1 e i h;
    update_view = λ p f x n i k h. laws.update_view p f x.1 n i k h;
    update_failed = λ p f x e i h. laws.update_failed p f x.1 e i h;
  }

  pub third_laws :
      {id_of : Row → ℕ} {m : Model C Row} → ModelLaws id_of m → ModelLaws id_of (third_model m)
  third_laws laws = record {
    view_key = λ x i r h. laws.view_key x.2 i r h;
    find_none = λ p x i r h g. laws.find_none p x.2 i r h g;
    find_some = λ p x r h. laws.find_some p x.2 r h;
    count_zero = λ p x i r h g. laws.count_zero p x.2 i r h g;
    count_suc = λ p x n h. laws.count_suc p x.2 n h;
    create_ok = λ mk x r k h. laws.create_ok mk x.2 r k h;
    create_view = λ mk x r i k h. laws.create_view mk x.2 r i k h;
    create_failed = λ mk x e i h. laws.create_failed mk x.2 e i h;
    update_view = λ p f x n i k h. laws.update_view p f x.2 n i k h;
    update_failed = λ p f x e i h. laws.update_failed p f x.2 e i h;
  }
