-- ===== src/Lib.antt =====
-- projectname: a collection of Odoo addons (local/). This library models four of them.
-- local/Contract, recurring contracts: what the dates of a contract line's periods and invoices
-- are, which operations a line allows, and how the operations change the lines of a contract.
-- local/connector_wb, the reports of the Wildberries service: the requests, the rows made of the
-- answers, and the loops over days and pages that keep the tables up to date.
-- local/sale_commission_1, the reports of commission agents: their states, and their invoices; and
-- the settlements of agents' commissions.
-- local/my_library, with local/my_library_return: the states of books, and their rents.
--
-- The parts, and the files that model them:
-- - Prelude: the library names in use, Boolean tests, integers, and the exceptions.
-- - Contract/Line.antt: the fields of a contract line (models/contract_line.py and
--   models/abstract_contract_line.py of local/Contract).
-- - Contract/Calendar.antt: dates and relativedelta.
-- - Contract/Period.antt: get_next_period_date_end, get_next_invoice_date, the computed period
--   fields and _get_period_to_invoice of models/contract_line.py. Period/Bounds, Period/Forced
--   and Period/Agree hold what is proved of them.
-- - Contract/Checks.antt: the methods marked by @api.constrains, and their choice by the fields
--   that are written.
-- - Contract/Billing.antt: _update_recurring_next_date. Billing/Step is one invoice,
--   Billing/Complete all invoices of a line; Billing/Init is _init_last_date_invoiced, and
--   Billing/Forgotten is about it.
-- - Contract/Criteria.antt and Contract/Allowed.antt: models/contract_line_constraints.py, the
--   table of criteria and its lookup, and _compute_allowed. Allowed/Rules has the rules.
-- - Contract/State.antt: _compute_state, _get_state_domain and _search_state. State/Progress is
--   about the days that pass, State/Search about the search by a state, State/Union and State/Asked
--   by several.
-- - Contract/Store.antt: the records and the writes of the ORM, as far as the methods use them.
-- - Contract/Lifecycle: cancel, uncancel, unlink, stop, plan_successor, _delay,
--   stop_plan_successor and renew of models/contract_line.py. Lifecycle/Delay is about delays,
--   Lifecycle/Daily is cron_renew_contract_line, with what a run writes in Daily/Extended.
-- - Contract/Invariant: the invariant of the store, which Store/Sound states, under each
--   operation; Store/Laws, Store/Links and Store/Writes are about single writes. Invariant/Reach
--   is about sequences of operations.
-- - Contract/Invoicing.antt: _get_lines_to_invoice, _compute_date_end,
--   _compute_recurring_next_date, _terminate_contract and action_cancel_contract_termination of
--   models/contract.py. Invoicing/Waiting and Invoicing/Selection are about the selection,
--   Invoicing/Due about the dates, Invoicing/Terminated about the termination.
-- - Contract/Recurring.antt: _prepare_recurring_invoices_values, cron_recurring_create_invoice and
--   _prepare_invoice_line. Recurring/Chosen is about the contracts that are due, Recurring/Owned
--   and Recurring/Others about the lines of one contract and of others, Recurring/Cron about runs.
-- - Contract/Tests: the theorems at concrete lines.
-- - Wildberries/Service.antt: _do_request of local/connector_wb/models/wb_service.py and
--   get_event_synchro_dict of local/connector_wb/models/connector_wb.py. Retry is about its loop.
-- - Wildberries/Rows.antt and Wildberries/Columns.antt: the dictionaries of create_from_*.
-- - Wildberries/World.antt: the tables, and methods that change them and may raise.
-- - Wildberries/Tables.antt: deleting_data_in_wb_report and create_from_* of connector_wb.py.
-- - Wildberries/Sync.antt: update_events, synchronize_events and synchronize_events_cron.
--   Created and Day are about one answer, Days and Twice about the loop over days, Interrupted
--   about a day that is not answered, Pages about the loop over pages.
-- - Wildberries/Tests: the theorems at concrete servers.
-- - Reports/Line.antt: the fields of models/commission_agent_report.py and
--   models/commission_order.py of local/sale_commission_1.
-- - Reports/Status.antt: the quantities and statuses that these files compute. Upselling is about
--   a report that is invoiced.
-- - Reports/Actions.antt: action_confirm, action_draft, action_cancel and unlink. Reach is about
--   sequences of them.
-- - Reports/Invoicing.antt: create_invoices, _prepare_invoice and _prepare_invoice_line. Sections
--   is about the lines of one report, Grouping about several reports, Billable and DueLines about
--   the status of what can be invoiced.
-- - Reports/Tests: the theorems at concrete reports.
-- - Library/Book.antt: the states of books, models/library_book.py of local/my_library and
--   models/library_return.py of local/my_library_return. Dated is about return dates.
-- - Library/Rent.antt: models/library_book_rent.py, book_rent and return_all_books, the two wizards
--   and data/library_stage.xml of local/my_library. Renting and Returning are about them.
-- - Library/Tests.antt: the theorems at one shelf.
-- - Settlements/Date.antt: Python's dates. Settlements/Period.antt: _get_period_start and
--   _get_next_period_date of local/sale_commission_1/wizard/wizard_settle.py, with Period/Same on
--   the dates of one period.
-- - Settlements/Database.antt: the agents, their lines on invoices and the settlements
--   (models/res_partner.py, models/account_move.py and models/settlement.py), and _get_settlement.
-- - Settlements/Settle.antt: action_settle. Found, Each, Each/Opened, Each/Rounds and Action are
--   about its loops; Numbered, Added, Companies, Due and Once count the settlements of a line;
--   Fitting and Fitted say which lines a settlement takes.
-- - Settlements/States.antt: action_cancel, unlink and make_invoices of settlements, the wizard of
--   wizard/wizard_invoice.py and button_cancel of invoices. Written, Single, Paid, Billed and
--   Reach are about sequences of them.
-- - Settlements/Tests: the theorems at one company's books.
--
-- How the code is read. A date is its ordinal, a natural number; intervals and the invoicing
-- offset are natural numbers. date_start is a required field, so the tests of its truth pass. A
-- ValidationError, or any other exception, ends the transaction, so a failed operation returns an
-- error and no store. The sum of a date and a relativedelta is dateutil's: it is the parameter
-- Calendar, whose laws state its documented behaviour (days and weeks are counted, adding a
-- positive number of months or years gives a later day, adding keeps the order of dates, and from
-- a day of a later month the first day of the month is reached by going back the months between).
-- A recordset is the list of its ids, a write replaces the record in the store, recomputes the
-- stored termination notice date if the end date is written, and checks each constraint that names a written field. A computed field
-- that the code leaves unassigned is False.
--
-- In connector_wb the exceptions are caught by the cron method, so a failed call keeps what it
-- changed. The server is a parameter that may answer the same request differently each time it is
-- asked; strptime, str and the reading of dates by the database are parameters too. The day does
-- not change during a run. Each of the loops (requests, days, pages) has fuel: one request, a
-- round for each day and one for each page are enough, and a loop that is stopped by the end of
-- its fuel is told apart from one that ends.
--
-- In the reports a quantity is a whole number of the smallest unit of the decimal precision, so
-- float_is_zero and float_compare are the tests of the integers. The units of measure and the
-- journal of a company are parameters, and so is whether lines of sale orders, a model of Odoo,
-- have the field report_id that create_invoices reads. create_invoices is that of a user who may
-- create invoices; the conversion of refunds (final) and the values that are only passed on are
-- left out.
--
-- In my_library the books that a wizard has are what is read of its field book_ids, from which Odoo
-- leaves out archived books.
--
-- In the settlements a date has a year, a month and a day, and dateutil's sum and the day before a
-- date are the parameter DateArithmetic. A table has no order, so the lines of agents are listed in
-- the order in which they are searched, by their dates. A method on several records is applied to
-- the list of their ids.
--
-- Not modelled: the other methods of models/contract.py, the order of
-- `sorted()` on the lines selected, the views and window actions, message texts (a message keeps
-- the ids and dates that it shows), the prices of contract lines and the values that Odoo gives
-- an invoice; the prices, the paid storage, the URLs and the tokens of connector_wb; the amounts,
-- taxes and remunerations of reports, settlements and commissions and the guards of their lines;
-- the write of a rent, the searches and the exports of my_library; and the other addons of local/.
pub mod Prelude
pub mod Contract
pub mod Wildberries
pub mod Reports
pub mod Library
pub mod Settlements
