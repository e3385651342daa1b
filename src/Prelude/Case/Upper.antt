-- ===== src/Prelude/Case/Upper.antt =====
-- unicode.ToUpper: ASCII by rule, and the other code points by the table of simple case mappings.
use mathlib.Core.List.{List, [], ◌∷◌}
use schick.Prelude.CaseRow.{Row, row}

abbrev pub upper_rows : List Row
upper_rows =
    row 181 181 1 924
    ∷ row 224 246 1 192
    ∷ row 248 254 1 216
    ∷ row 255 255 1 376
    ∷ row 257 303 2 256
    ∷ row 305 305 1 73
    ∷ row 307 311 2 306
    ∷ row 314 328 2 313
    ∷ row 331 375 2 330
    ∷ row 378 382 2 377
    ∷ row 383 383 1 83
    ∷ row 384 384 1 579
    ∷ row 387 389 2 386
    ∷ row 392 392 1 391
    ∷ row 396 396 1 395
    ∷ row 402 402 1 401
    ∷ row 405 405 1 502
    ∷ row 409 409 1 408
    ∷ row 410 410 1 573
    ∷ row 414 414 1 544
    ∷ row 417 421 2 416
    ∷ row 424 424 1 423
    ∷ row 429 429 1 428
    ∷ row 432 432 1 431
    ∷ row 436 438 2 435
    ∷ row 441 441 1 440
    ∷ row 445 445 1 444
    ∷ row 447 447 1 503
    ∷ row 453 453 1 452
    ∷ row 454 454 1 452
    ∷ row 456 456 1 455
    ∷ row 457 457 1 455
    ∷ row 459 459 1 458
    ∷ row 460 460 1 458
    ∷ row 462 476 2 461
    ∷ row 477 477 1 398
    ∷ row 479 495 2 478
    ∷ row 498 498 1 497
    ∷ row 499 499 1 497
    ∷ row 501 501 1 500
    ∷ row 505 543 2 504
    ∷ row 547 563 2 546
    ∷ row 572 572 1 571
    ∷ row 575 576 1 11390
    ∷ row 578 578 1 577
    ∷ row 583 591 2 582
    ∷ row 592 592 1 11375
    ∷ row 593 593 1 11373
    ∷ row 594 594 1 11376
    ∷ row 595 595 1 385
    ∷ row 596 596 1 390
    ∷ row 598 599 1 393
    ∷ row 601 601 1 399
    ∷ row 603 603 1 400
    ∷ row 604 604 1 42923
    ∷ row 608 608 1 403
    ∷ row 609 609 1 42924
    ∷ row 611 611 1 404
    ∷ row 613 613 1 42893
    ∷ row 614 614 1 42922
    ∷ row 616 616 1 407
    ∷ row 617 617 1 406
    ∷ row 618 618 1 42926
    ∷ row 619 619 1 11362
    ∷ row 620 620 1 42925
    ∷ row 623 623 1 412
    ∷ row 625 625 1 11374
    ∷ row 626 626 1 413
    ∷ row 629 629 1 415
    ∷ row 637 637 1 11364
    ∷ row 640 640 1 422
    ∷ row 642 642 1 42949
    ∷ row 643 643 1 425
    ∷ row 647 647 1 42929
    ∷ row 648 648 1 430
    ∷ row 649 649 1 580
    ∷ row 650 651 1 433
    ∷ row 652 652 1 581
    ∷ row 658 658 1 439
    ∷ row 669 669 1 42930
    ∷ row 670 670 1 42928
    ∷ row 837 837 1 921
    ∷ row 881 883 2 880
    ∷ row 887 887 1 886
    ∷ row 891 893 1 1021
    ∷ row 940 940 1 902
    ∷ row 941 943 1 904
    ∷ row 945 961 1 913
    ∷ row 962 962 1 931
    ∷ row 963 971 1 931
    ∷ row 972 972 1 908
    ∷ row 973 974 1 910
    ∷ row 976 976 1 914
    ∷ row 977 977 1 920
    ∷ row 981 981 1 934
    ∷ row 982 982 1 928
    ∷ row 983 983 1 975
    ∷ row 985 1007 2 984
    ∷ row 1008 1008 1 922
    ∷ row 1009 1009 1 929
    ∷ row 1010 1010 1 1017
    ∷ row 1011 1011 1 895
    ∷ row 1013 1013 1 917
    ∷ row 1016 1016 1 1015
    ∷ row 1019 1019 1 1018
    ∷ row 1072 1103 1 1040
    ∷ row 1104 1119 1 1024
    ∷ row 1121 1153 2 1120
    ∷ row 1163 1215 2 1162
    ∷ row 1218 1230 2 1217
    ∷ row 1231 1231 1 1216
    ∷ row 1233 1327 2 1232
    ∷ row 1377 1414 1 1329
    ∷ row 4304 4346 1 7312
    ∷ row 4349 4351 1 7357
    ∷ row 5112 5117 1 5104
    ∷ row 7296 7296 1 1042
    ∷ row 7297 7297 1 1044
    ∷ row 7298 7298 1 1054
    ∷ row 7299 7300 1 1057
    ∷ row 7301 7301 1 1058
    ∷ row 7302 7302 1 1066
    ∷ row 7303 7303 1 1122
    ∷ row 7304 7304 1 42570
    ∷ row 7545 7545 1 42877
    ∷ row 7549 7549 1 11363
    ∷ row 7566 7566 1 42950
    ∷ row 7681 7829 2 7680
    ∷ row 7835 7835 1 7776
    ∷ row 7841 7935 2 7840
    ∷ row 7936 7943 1 7944
    ∷ row 7952 7957 1 7960
    ∷ row 7968 7975 1 7976
    ∷ row 7984 7991 1 7992
    ∷ row 8000 8005 1 8008
    ∷ row 8017 8023 2 8025
    ∷ row 8032 8039 1 8040
    ∷ row 8048 8049 1 8122
    ∷ row 8050 8053 1 8136
    ∷ row 8054 8055 1 8154
    ∷ row 8056 8057 1 8184
    ∷ row 8058 8059 1 8170
    ∷ row 8060 8061 1 8186
    ∷ row 8064 8071 1 8072
    ∷ row 8080 8087 1 8088
    ∷ row 8096 8103 1 8104
    ∷ row 8112 8113 1 8120
    ∷ row 8115 8115 1 8124
    ∷ row 8126 8126 1 921
    ∷ row 8131 8131 1 8140
    ∷ row 8144 8145 1 8152
    ∷ row 8160 8161 1 8168
    ∷ row 8165 8165 1 8172
    ∷ row 8179 8179 1 8188
    ∷ row 8526 8526 1 8498
    ∷ row 8560 8575 1 8544
    ∷ row 8580 8580 1 8579
    ∷ row 9424 9449 1 9398
    ∷ row 11312 11359 1 11264
    ∷ row 11361 11361 1 11360
    ∷ row 11365 11365 1 570
    ∷ row 11366 11366 1 574
    ∷ row 11368 11372 2 11367
    ∷ row 11379 11379 1 11378
    ∷ row 11382 11382 1 11381
    ∷ row 11393 11491 2 11392
    ∷ row 11500 11502 2 11499
    ∷ row 11507 11507 1 11506
    ∷ row 11520 11557 1 4256
    ∷ row 11559 11559 1 4295
    ∷ row 11565 11565 1 4301
    ∷ row 42561 42605 2 42560
    ∷ row 42625 42651 2 42624
    ∷ row 42787 42799 2 42786
    ∷ row 42803 42863 2 42802
    ∷ row 42874 42876 2 42873
    ∷ row 42879 42887 2 42878
    ∷ row 42892 42892 1 42891
    ∷ row 42897 42899 2 42896
    ∷ row 42900 42900 1 42948
    ∷ row 42903 42921 2 42902
    ∷ row 42933 42947 2 42932
    ∷ row 42952 42954 2 42951
    ∷ row 42961 42961 1 42960
    ∷ row 42967 42969 2 42966
    ∷ row 42998 42998 1 42997
    ∷ row 43859 43859 1 42931
    ∷ row 43888 43967 1 5024
    ∷ row 65345 65370 1 65313
    ∷ row 66600 66639 1 66560
    ∷ row 66776 66811 1 66736
    ∷ row 66967 66977 1 66928
    ∷ row 66979 66993 1 66940
    ∷ row 66995 67001 1 66956
    ∷ row 67003 67004 1 66964
    ∷ row 68800 68850 1 68736
    ∷ row 71872 71903 1 71840
    ∷ row 93792 93823 1 93760
    ∷ row 125218 125251 1 125184
    ∷ []
